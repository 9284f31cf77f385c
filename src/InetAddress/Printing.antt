-- ===== src/InetAddress/Printing.antt =====
-- src/InetAddress.cc: the text of an address fits its array, and tells addresses apart.
use muduo_learning.Prelude.{
  ℕ, suc, ◌+◌, ◌*◌, ◌/◌, ◌%◌, ◌^◌, ◌≤◌, ◌<◌, ◌≡◌, refl, sym, ap, ap₂, ◌∙◌, ◌∷◌, [], ◌++◌, length,
  length-append, arith,
}
use mathlib.Core.Path.{subst}
use muduo_learning.Text.{
  Text, IsText, IsText-append, c_str, zeroed, print_at, c_str-print_at, c_str-print_at_end,
}
use muduo_learning.Text.Decimal.{decimal, decimal-IsText, length-decimal}
use muduo_learning.Text.Reading.{
  numbers, scan, scan-decimal, scan-decimal_all, scan-field, scan-separator,
}
use muduo_learning.InetAddress.{
  InetAddress, af_inet, ntohs, dotted, octets, inet_ntop, init, to_port, to_ip, to_ip_port,
}

dotted-IsText : (a b c d : ℕ) → IsText (dotted a b c d)
dotted-IsText a b c d = IsText-append (decimal a) _ (decimal-IsText a) (
  omega arith,
  IsText-append (decimal b) _ (decimal-IsText b)
      (omega arith, IsText-append (decimal c) _ (decimal-IsText c) (omega arith, decimal-IsText d)),
)

length-octet : (a : ℕ) → a < 256 → length (decimal a) ≤ 3
length-octet a h = length-decimal 2 a (omega arith)

length-dotted : (a b c d : ℕ) → a < 256 → b < 256 → c < 256 → d < 256 → length (dotted a b c d) ≤ 15
length-dotted a b c d ha hb hc hd =
    let end = b'.' ∷ decimal d in
    let tail = b'.' ∷ decimal c ++ end in
    omega (
      arith,
      length-octet a ha,
      length-octet b hb,
      length-octet c hc,
      length-octet d hd,
      length-append (decimal c) end,
      length-append (decimal b) tail,
      length-append (decimal a) (b'.' ∷ decimal b ++ tail),
    )

length-octets : (n : ℕ) → length (octets n) ≤ 15
length-octets n = length-dotted _ _ _ _ (omega arith) (omega arith) (omega arith) (omega arith)

inet_ntop_lem : (n : ℕ) → inet_ntop n 64 (zeroed 64) ≡ print_at 0 (octets n) (zeroed 64)
unfolding inet_ntop
inet_ntop_lem n = ground (arith, length-octets n)

octets_read : (n : ℕ) → c_str (print_at 0 (octets n) (zeroed 64)) ≡ octets n
octets_read n =
    c_str-print_at (octets n) (zeroed 64) (dotted-IsText _ _ _ _) (omega (arith, length-octets n))

to_ip_lem : (a : InetAddress) → to_ip a ≡ octets a.addr.s_addr
unfolding to_ip
to_ip_lem a = ap c_str (inet_ntop_lem a.addr.s_addr) ∙ octets_read a.addr.s_addr

length-port : (n : ℕ) → length (b':' ∷ decimal (ntohs n)) ≤ 6
length-port n = omega (arith, length-decimal 4 (ntohs n) (omega arith))

to_ip_port_lem : (a : InetAddress) → to_ip_port a ≡ to_ip a ++ (b':' ∷ decimal (to_port a))
unfolding to_ip_port to_port
to_ip_port_lem a =
    let port = b':' ∷ decimal (ntohs a.addr.sin_port) in
    let text = octets a.addr.s_addr in
    ap (λ buf. c_str (print_at (length (c_str buf)) port buf)) (inet_ntop_lem a.addr.s_addr)
    ∙ ap (λ t. c_str (print_at (length t) port (print_at 0 text (zeroed 64))))
        (octets_read a.addr.s_addr)
    ∙ c_str-print_at_end text port (zeroed 64) (dotted-IsText _ _ _ _)
        (omega arith, decimal-IsText _)
        (omega (arith, length-octets a.addr.s_addr, length-port a.addr.sin_port))
    ∙ ap (λ t. t ++ port) (sym (to_ip_lem a))

pub scan-dotted :
    (a b c d : ℕ) (s : Text)
    → a < 256
    → b < 256
    → c < 256
    → d < 256
    → scan (dotted a b c d ++ s) 0 ≡ a ∷ b ∷ c ∷ scan s d
scan-dotted a b c d s ha hb hc hd =
    scan-field a b'.' _ s (omega arith) refl
    ∙ ap (λ r. a ∷ r) (scan-field b b'.' _ s (omega arith) refl)
    ∙ ap (λ r. a ∷ b ∷ r) (scan-field c b'.' _ s (omega arith) refl)
    ∙ ap (λ r. a ∷ b ∷ c ∷ r) (scan-decimal d s (omega arith))

to_ip_port_reads :
    (a : InetAddress)
    → numbers (to_ip_port a)
      ≡ a.addr.s_addr % 256
        ∷ a.addr.s_addr / 256 % 256
        ∷ a.addr.s_addr / 65536 % 256
        ∷ a.addr.s_addr / 16777216 % 256
        ∷ to_port a
        ∷ []
unfolding to_port
to_ip_port_reads a =
    let port = decimal (to_port a) in
    let first = a.addr.s_addr % 256 in
    let second = a.addr.s_addr / 256 % 256 in
    let third = a.addr.s_addr / 65536 % 256 in
    let last = a.addr.s_addr / 16777216 % 256 in
    ap numbers (to_ip_port_lem a ∙ ap (λ t. t ++ (b':' ∷ port)) (to_ip_lem a))
    ∙ scan-dotted first second third last (b':' ∷ port) (omega arith) (omega arith) (omega arith)
        (omega arith)
    ∙ ap (λ r. first ∷ second ∷ third ∷ r)
        (scan-separator b':' last port refl
          ∙ ap (λ r. last ∷ r) (scan-decimal_all (to_port a) (omega arith)))

-- `toIpPort`, whatever the fields hold: the address takes at most 15 of the 64 bytes of its array,
-- the colon, the port and the null byte behind it still fit, and the text is the address, a colon
-- and the port in decimal, at most 21 bytes; the numbers that can be read in it are the four bytes
-- of the address, the lowest first, and the port.
pub to_ip_port_fits :
    (a : InetAddress)
    → (length (to_ip a) ≤ 15)
      × (length (to_ip a) + suc (length (b':' ∷ decimal (to_port a))) ≤ 64)
      × (length (to_ip_port a) ≤ 21)
      × (to_ip_port a ≡ to_ip a ++ (b':' ∷ decimal (to_port a)))
      × (numbers (to_ip_port a)
          ≡ a.addr.s_addr % 256
            ∷ a.addr.s_addr / 256 % 256
            ∷ a.addr.s_addr / 65536 % 256
            ∷ a.addr.s_addr / 16777216 % 256
            ∷ to_port a
            ∷ [])
unfolding to_port
to_ip_port_fits a =
    let address = ap (length {A = ℕ}) (to_ip_lem a) in
    let whole = ap (length {A = ℕ}) (to_ip_port_lem a) in
    let parts = length-append (to_ip a) (b':' ∷ decimal (to_port a)) in
    let few = length-octets a.addr.s_addr in
    let port = length-port a.addr.sin_port in
    (
      omega (arith, few, address),
      omega (arith, few, port, address),
      omega (arith, few, port, address, whole, parts),
      to_ip_port_lem a,
      to_ip_port_reads a,
    )

-- What an IPv4 address holds: its family, 16 bits and 32 bits.
abbrev pub IsIpv4 : InetAddress → Type 0
IsIpv4 a = (a.addr.sin_family ≡ af_inet) × (a.addr.sin_port < 2 ^ 16) × (a.addr.s_addr < 2 ^ 32)

-- Two IPv4 addresses whose `toIpPort` is the same text are the same address, and the same port.
pub to_ip_port-injective :
    (a b : InetAddress) → IsIpv4 a → IsIpv4 b → to_ip_port a ≡ to_ip_port b → a ≡ b
unfolding to_port
to_ip_port-injective a b ha hb h =
    ground (arith, sym (to_ip_port_reads a) ∙ ap numbers h ∙ to_ip_port_reads b)

-- What the manual says of `inet_addr` on four octets in dotted decimal: it gives them in network
-- order.
abbrev pub Documented : (Text → ℕ) → Type 0
Documented inet_addr =
    (a b c d : ℕ)
    → a < 256
    → b < 256
    → c < 256
    → d < 256
    → inet_addr (dotted a b c d) ≡ a + b * 256 + c * 65536 + d * 16777216

octets-dotted :
    (a b c d : ℕ)
    → a < 256
    → b < 256
    → c < 256
    → d < 256
    → octets (a + b * 256 + c * 65536 + d * 16777216) ≡ dotted a b c d
octets-dotted a b c d ha hb hc hd =
    let n = a + b * 256 + c * 65536 + d * 16777216 in
    let e : n % 256 ≡ a = omega arith in
    let f : n / 256 % 256 ≡ b = omega arith in
    let g : n / 65536 % 256 ≡ c = omega arith in
    let h : n / 16777216 % 256 ≡ d = omega arith in cc (e, f, g, h)

-- An address made from a 16-bit port and the dotted decimal of four octets, where `inet_addr` does
-- what is documented: `toPort` gives the port, `toIp` the text, `toIpPort` the text, a colon and
-- the port in decimal, and the object is an IPv4 address.
pub init-to_ip_port :
    (inet_addr : Text → ℕ)
    → Documented inet_addr
    → (port a b c d : ℕ) → port < 2 ^ 16
    → a < 256
    → b < 256
    → c < 256
    → d < 256
    → let made = init inet_addr port (dotted a b c d) in
      (to_port made ≡ port)
      × (to_ip made ≡ dotted a b c d)
      × (to_ip_port made ≡ dotted a b c d ++ (b':' ∷ decimal port))
      × IsIpv4 made
unfolding init to_port
init-to_ip_port inet_addr documented port a b c d hp ha hb hc hd =
    let made = init inet_addr port (dotted a b c d) in
    let address = documented a b c d ha hb hc hd in
    let as_port : to_port made ≡ port = omega arith in
    let as_ip = to_ip_lem made ∙ ap octets address ∙ octets-dotted a b c d ha hb hc hd in
    (
      as_port,
      as_ip,
      to_ip_port_lem made ∙ ap₂ (λ t p. t ++ (b':' ∷ decimal p)) as_ip as_port,
      (refl, omega arith, omega (arith, address)),
    )

-- No null byte stands in the text.
pub to_ip_port-IsText : (a : InetAddress) → IsText (to_ip_port a)
to_ip_port-IsText a = subst IsText (sym (to_ip_port_lem a)) (
    IsText-append (to_ip a) (b':' ∷ decimal (to_port a))
      (subst IsText (sym (to_ip_lem a)) (dotted-IsText _ _ _ _))
      (omega arith, decimal-IsText (to_port a)))
