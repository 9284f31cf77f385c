-- ===== src/InetAddress.antt =====
-- include/InetAddress.h and src/InetAddress.cc: an IPv4 address and a port, on a machine that stores
-- the low byte of a number first. `inet_addr` is a parameter.
pub mod Printing
pub mod Tests
use muduo_learning.Prelude.{
  ℕ, suc, ◌+◌, ◌*◌, ◌/◌, ◌%◌, ◌∷◌, [], ◌++◌, List, length, leb, if◌then◌else◌,
}
use muduo_learning.Text.{Text, codes, c_str, print_at, zeroed}
use muduo_learning.Text.Decimal.{decimal}

-- `sockaddr_in`, its port and its address as the numbers that the fields hold.
pub record SockaddrIn : Type 0 where
  pub sin_family : ℕ
  pub sin_port : ℕ
  pub s_addr : ℕ

pub record InetAddress : Type 0 where
  pub addr : SockaddrIn

abbrev pub af_inet : ℕ
af_inet = 2

-- The C library's: the two bytes of a `uint16_t` change places.
abbrev pub htons : ℕ → ℕ
htons n = n % 256 * 256 + n / 256 % 256

abbrev pub ntohs : ℕ → ℕ
ntohs n = n % 256 * 256 + n / 256 % 256

-- Four octets in dotted decimal.
abbrev pub dotted : ℕ → ℕ → ℕ → ℕ → Text
dotted a b c d = decimal a ++ (b'.' ∷ decimal b ++ (b'.' ∷ decimal c ++ (b'.' ∷ decimal d)))

-- The octets of an `in_addr`, which stands in memory in network order.
abbrev pub octets : ℕ → Text
octets n = dotted (n % 256) (n / 256 % 256) (n / 65536 % 256) (n / 16777216 % 256)

-- The C library's `inet_ntop(AF_INET, …)`: the array is left as it is where the text does not fit.
unfoldable pub inet_ntop : ℕ → ℕ → List ℕ → List ℕ
inet_ntop n size buf = if leb (suc (length (octets n))) size then print_at 0 (octets n) buf else buf

-- `explicit InetAddress(uint16_t port, std::string ip)`: all of the structure is set.
unfoldable pub init : (Text → ℕ) → ℕ → Text → InetAddress
init inet_addr port ip = record {
  addr = record { sin_family = af_inet; sin_port = htons port; s_addr = inet_addr ip };
}

-- `InetAddress()`.
abbrev pub default_address : (Text → ℕ) → InetAddress
default_address inet_addr = init inet_addr 0 (codes "127.0.0.1")

-- `explicit InetAddress(const sockaddr_in&)`.
abbrev pub of_sockaddr : SockaddrIn → InetAddress
of_sockaddr addr = record { addr = addr }

unfoldable pub to_port : InetAddress → ℕ
to_port a = ntohs a.addr.sin_port

unfoldable pub to_ip : InetAddress → Text
to_ip a = c_str (inet_ntop a.addr.s_addr 64 (zeroed 64))

unfoldable pub to_ip_port : InetAddress → Text
to_ip_port a =
    let buf = inet_ntop a.addr.s_addr 64 (zeroed 64) in
    let end = length (c_str buf) in
    c_str (print_at end (b':' ∷ decimal (ntohs a.addr.sin_port)) buf)

abbrev pub get_sock_addr : InetAddress → SockaddrIn
get_sock_addr a = a.addr

abbrev pub set_sock_addr : SockaddrIn → InetAddress → InetAddress
set_sock_addr addr a = record a { addr = addr }
