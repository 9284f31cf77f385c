-- ===== src/InetAddress/Tests.antt =====
-- Addresses with an `inet_addr` that reads four decimals.
use muduo_learning.Prelude.{
  ◌%◌, ◌/◌, ℕ, ◌+◌, ◌*◌, ◌≡◌, sym, ap, ◌∙◌, List, [], ◌∷◌, ◌++◌, append-nil, suc, ◌≤◌, length,
  arith,
}
use muduo_learning.Text.{Text}
use muduo_learning.Text.Decimal.{decimal}
use muduo_learning.Text.Reading.{numbers, scan}
use muduo_learning.InetAddress.{InetAddress, dotted, init, to_port, to_ip, to_ip_port}
use muduo_learning.InetAddress.Printing.{
  Documented, IsIpv4, scan-dotted, init-to_ip_port, to_ip_port_fits,
}

abbrev pub of_numbers : List ℕ → ℕ
of_numbers (a ∷ b ∷ c ∷ d ∷ []) = a + b * 256 + c * 65536 + d * 16777216
of_numbers _ = 0xffff_ffff

abbrev pub read_address : Text → ℕ
read_address t = of_numbers (numbers t)

pub read_address-Documented : Documented read_address
unfolding scan
read_address-Documented a b c d ha hb hc hd =
    ap of_numbers
      (ap numbers (sym (append-nil (dotted a b c d))) ∙ scan-dotted a b c d [] ha hb hc hd)

-- `InetAddress(8080)`, with the default address.
abbrev local : InetAddress
local = init read_address 8080 (dotted 127 0 0 1)

init-to_ip_port_example :
    (to_port local ≡ 8080)
    × (to_ip local ≡ dotted 127 0 0 1)
    × (to_ip_port local ≡ dotted 127 0 0 1 ++ (b':' ∷ decimal 8080))
    × IsIpv4 local
init-to_ip_port_example =
    init-to_ip_port read_address read_address-Documented 8080 127 0 0 1 (omega arith) (omega arith)
      (omega arith) (omega arith) (omega arith)

to_ip_port_fits_example :
    (length (to_ip local) ≤ 15)
    × (length (to_ip local) + suc (length (b':' ∷ decimal (to_port local))) ≤ 64)
    × (length (to_ip_port local) ≤ 21)
    × (to_ip_port local ≡ to_ip local ++ (b':' ∷ decimal (to_port local)))
    × (numbers (to_ip_port local)
        ≡ local.addr.s_addr % 256
          ∷ local.addr.s_addr / 256 % 256
          ∷ local.addr.s_addr / 65536 % 256
          ∷ local.addr.s_addr / 16777216 % 256
          ∷ to_port local
          ∷ [])
to_ip_port_fits_example = to_ip_port_fits local
