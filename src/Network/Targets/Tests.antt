-- ===== src/Network/Targets/Tests.antt =====
-- Runs of the target functions, and the theorems about them at concrete inputs.
use ospd_openvas.Network.Targets.Blocks.{target_to_ipv4_cidr-addresses, addresses_from}
use ospd_openvas.Prelude.{
  not, ltb, arith, none, true, ◌==◌, map, length, ℕ, some, refl, ◌++◌, Option, if◌then◌else◌, ◌≡◌,
  List, [], ◌∷◌,
}
use ospd_openvas.Py.Text.{text_eq, strip, has_char, join, strip_char, split, codes, Text}
use ospd_openvas.Py.TextList.{fromkeys, NoRepeat, has_text}
use ospd_openvas.Py.Number.{int, str, scan}
use ospd_openvas.Network.Targets.{
  int_hex, bytes_lt, bit_or, unpack, pack, ipv6_range_to_list, ipv4_range_to_list,
  target_to_hostname, target_to_ipv6_long, target_to_ipv6_short, target_to_ipv4_long,
  target_to_ipv6_cidr, ◌>=>◌, target_to_ipv4_cidr, target_to_ipv6, target_to_ipv4, target_to_list,
  target_str_to_list, target_to_ipv4_short, Sockets,
}
use ospd_openvas.Network.Targets.Ranges.{target_to_ipv4_short-addresses, address}
use ospd_openvas.Py.Order.{range}
use ospd_openvas.Network.Targets.Hosts.{target_str_to_list-hosts, IsHostList}

abbrev octet : Text → Option ℕ
octet s = elim (scan s 0 true) [ none ↦ none | some n ↦ if ltb 255 n then none else some n ]

abbrev octets : List Text → Option (List ℕ)
octets [] = some []
octets (s ∷ parts) = octet s >=> λ n. octets parts >=> λ rest. some (n ∷ rest)

-- Dotted addresses of four numbers; no IPv6 address; a hostname has no '/'.
abbrev sample_sockets : Sockets
sample_sockets = record {
  pton4 = λ s. let parts = split b'.' s in if length parts == 4 then octets parts else none;
  pton6 = λ s. none;
  ntoa = λ bytes. join b'.' (map str bytes);
  ntop6 = λ bytes. [];
  is_hostname = λ s. not (has_char b'/' s);
}

unfoldable opened : Unit {0}
unfolding target_str_to_list target_to_list target_to_ipv4 target_to_ipv6 target_to_ipv4_cidr
    target_to_ipv6_cidr target_to_ipv4_short target_to_ipv4_long target_to_ipv6_short
    target_to_ipv6_long target_to_hostname ipv4_range_to_list ipv6_range_to_list pack unpack bit_or
    bytes_lt int_hex int split join has_char scan str strip strip_char fromkeys has_text text_eq
    range
opened = tt

abbrev addresses : List Text
addresses = codes "10.0.0.1" ∷ codes "10.0.0.2" ∷ []

-- A block of four addresses has two hosts. A reversed short range passes as a hostname.
tests :
    (target_str_to_list sample_sockets (codes "10.0.0.0/30") ≡ some addresses)
    × (target_str_to_list sample_sockets (codes "10.0.0.1-2, 10.0.0.2,") ≡ some addresses)
    × (target_str_to_list sample_sockets (codes "10.0.0.1-10.0.0.2") ≡ some addresses)
    × (target_str_to_list sample_sockets (codes "10.0.0.1,10.0.0.0/31") ≡ some [])
    × (target_str_to_list sample_sockets (codes "10.0.0.9-5") ≡ some (codes "10.0.0.9-5" ∷ []))
unfolding opened
tests = (refl, refl, refl, refl, refl)

target_str_to_list-hosts_example :
    NoRepeat addresses
    × IsHostList sample_sockets
        (split b',' (strip_char b',' (codes "10.0.0.1-2, 10.0.0.2,")))
        addresses
unfolding opened
target_str_to_list-hosts_example =
    target_str_to_list-hosts sample_sockets (codes "10.0.0.1-2, 10.0.0.2,") addresses refl (λ e. cc)

target_to_ipv4_short-addresses_example :
    target_to_ipv4_short sample_sockets (codes "10.0.0.9" ++ (b'-' ∷ str 11))
    ≡ some (map (address sample_sockets 10 0 0) (range 9 12))
unfolding opened
target_to_ipv4_short-addresses_example =
    target_to_ipv4_short-addresses sample_sockets (codes "10.0.0.9") 10 0 0 9 11 refl (omega arith)
      (omega arith)

target_to_ipv4_cidr-addresses_example :
    target_to_ipv4_cidr sample_sockets (codes "10.0.0.9" ++ (b'/' ∷ str 29))
    ≡ some (addresses_from sample_sockets 167772169 167772175)
unfolding opened
target_to_ipv4_cidr-addresses_example =
    target_to_ipv4_cidr-addresses sample_sockets (codes "10.0.0.9") (10 ∷ 0 ∷ 0 ∷ 9 ∷ []) 29 refl
      (omega arith) (omega arith) (omega arith) (omega arith)
