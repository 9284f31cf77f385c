-- ===== src/TcpServer/Names.antt =====
-- src/TcpServer.cc: the names of connections, by which the map of connections finds them.
use muduo_learning.Prelude.{
  ℕ, ◌^◌, ◌<◌, ◌≡◌, refl, sym, ap, ◌∙◌, [], ◌∷◌, ◌++◌, length, length-append, take_all, drop,
  append_assoc, arith,
}
use muduo_learning.Text.{
  Text, IsText, IsText-append, c_str, c_str-print_bounded, print_bounded, zeroed,
}
use muduo_learning.Text.Decimal.{decimal, decimal-IsText, length-decimal}
use muduo_learning.Text.Reading.{numbers, scan-decimal_all}
use muduo_learning.InetAddress.{InetAddress, to_ip_port}
use muduo_learning.InetAddress.Printing.{to_ip_port_fits, to_ip_port-IsText}

-- `name_ + buf`, where the format "-%s#%d" was printed into the 64 bytes of `buf`.
unfoldable pub conn_name : Text → Text → ℕ → Text
conn_name name ip_port next_conn_id =
    name ++ c_str (print_bounded 64 (b'-' ∷ ip_port ++ (b'#' ∷ decimal next_conn_id)) (zeroed 64))

-- What stands before the number of a connection.
abbrev pub before_number : Text → InetAddress → Text
before_number name address = name ++ (b'-' ∷ to_ip_port address)

-- The name of a connection of a server that listens at `address`, its number below 2 ^ 31: nothing
-- is cut off.
pub conn_name_lem :
    (name : Text) (address : InetAddress) (n : ℕ)
    → n < 2 ^ 31
    → conn_name name (to_ip_port address) n ≡ before_number name address ++ (b'#' ∷ decimal n)
unfolding conn_name
conn_name_lem name address n h =
    let text = b'-' ∷ to_ip_port address ++ (b'#' ∷ decimal n) in
    let is_text : IsText text =
      IsText-append (b'-' ∷ to_ip_port address) (b'#' ∷ decimal n)
        (omega arith, to_ip_port-IsText address) (omega arith, decimal-IsText n) in
    ap (λ t. name ++ t)
      (c_str-print_bounded 64 text (zeroed 64) is_text (omega arith) (omega arith)
        ∙ take_all 63 text (
            omega (
              arith,
              to_ip_port_fits address,
              length-append (to_ip_port address) (b'#' ∷ decimal n),
              length-decimal 9 n (omega arith),
            )))
    ∙ sym (append_assoc name (b'-' ∷ to_ip_port address) (b'#' ∷ decimal n))

drop-append : (s t : Text) → drop (length s) (s ++ t) ≡ t
drop-append [] t = refl
drop-append (c ∷ s) t = drop-append s t

decimal-injective : (m n : ℕ) → m < 10 ^ 10 → n < 10 ^ 10 → decimal m ≡ decimal n → m ≡ n
decimal-injective m n hm hn h =
    ground (arith, sym (scan-decimal_all m hm) ∙ ap numbers h ∙ scan-decimal_all n hn)

tail : Text → Text
tail [] = []
tail (c ∷ s) = s

-- Connections of one server whose numbers are below 2 ^ 31 have the same name only if they have
-- the same number: the server's name and address and the number are printed whole.
pub conn_name-injective :
    (name : Text) (address : InetAddress) (m n : ℕ)
    → m < 2 ^ 31
    → n < 2 ^ 31
    → conn_name name (to_ip_port address) m ≡ conn_name name (to_ip_port address) n
    → m ≡ n
unfolding tail
conn_name-injective name address m n hm hn h =
    let prefix = before_number name address in
    let same : b'#' ∷ decimal m ≡ b'#' ∷ decimal n =
      sym (drop-append prefix (b'#' ∷ decimal m))
      ∙ ap (drop (length prefix))
          (sym (conn_name_lem name address m hm) ∙ h ∙ conn_name_lem name address n hn)
      ∙ drop-append prefix (b'#' ∷ decimal n) in
    decimal-injective m n (omega arith) (omega arith) (ap tail same)
