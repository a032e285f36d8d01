-- ===== src/Prefs/AliveTest.antt =====
-- The alive test of a target in ospd_openvas/preferencehandler.py: a bit field or single methods,
-- which become preferences of the ping VT or of the scanner's own test.
pub mod Methods
use ospd_openvas.Prelude.{
  ◌%◌, ◌==◌, ◌/◌, ltb, [], not, if◌then◌else◌, ◌&&◌, some, ◌∷◌, none, ◌+◌, true, ◌++◌, false, ◌||◌,
  Option, Bool, ℕ, String,
}
use ospd_openvas.Network.Ports.{is_empty}
use ospd_openvas.Py.Text.{text_eq, codes, Text}
use ospd_openvas.Prelude.Int.{pos, ℤ}
use ospd_openvas.Py.Number.{int}
use ospd_openvas.Py.Dict.{get, Dict}

-- The bits of `AliveTest`.
abbrev pub tcp_ack_bit : ℕ
tcp_ack_bit = 1

abbrev pub icmp_bit : ℕ
icmp_bit = 2

abbrev pub arp_bit : ℕ
arp_bit = 4

abbrev pub consider_alive_bit : ℕ
consider_alive_bit = 8

abbrev pub tcp_syn_bit : ℕ
tcp_syn_bit = 16

-- `alive_test & bit`, for a bit that is a power of two.
abbrev pub has_bit : ℕ → ℕ → Bool
has_bit n bit = not ((n / bit) % 2 == 0)

abbrev pub bit_if : Bool → ℕ → ℕ
bit_if true bit = bit
bit_if false bit = 0

-- The bits are different, so that `|` is a sum.
unfoldable pub alive_test_methods_to_bit_field : Bool → Bool → Bool → Bool → Bool → ℕ
alive_test_methods_to_bit_field icmp tcp_syn tcp_ack arp consider_alive =
    bit_if icmp icmp_bit
    + bit_if tcp_syn tcp_syn_bit
    + bit_if tcp_ack tcp_ack_bit
    + bit_if arp arp_bit
    + bit_if consider_alive consider_alive_bit

abbrev pub yes_no : Bool → Text
yes_no true = codes "yes"
yes_no false = codes "no"

-- `target_options.get(method) == '1'`
abbrev pub is_one : Option Text → Bool
is_one none = false
is_one (some value) = text_eq value (codes "1")

abbrev pub method : String → Dict Text → Bool
method name target_options = is_one (get (codes name) target_options)

-- `if x` on a text that may be missing.
abbrev pub is_set : Option Text → Bool
is_set none = false
is_set (some value) = not (is_empty value)

abbrev pub field_of_methods : Dict Text → ℕ
field_of_methods target_options =
    alive_test_methods_to_bit_field (method "icmp" target_options) (method "tcp_syn" target_options)
      (method "tcp_ack" target_options) (method "arp" target_options)
      (method "consider_alive" target_options)

-- The value of `alive_test`: None, a text of the client, or a bit field of the methods.
pub data AliveValue : Type 0 where
  nothing : AliveValue
  given : Text → AliveValue
  of_methods : ℕ → AliveValue

-- The bit field takes precedence over the methods.
abbrev pub value_or_methods : Option Text → Bool → ℕ → AliveValue
value_or_methods (some alive_test) has_methods field = given alive_test
value_or_methods none true field = of_methods field
value_or_methods none false field = nothing

abbrev pub alive_value : Dict Text → AliveValue
alive_value target_options =
    value_or_methods (get (codes "alive_test") target_options)
      (is_set (get (codes "alive_test_methods") target_options)) (field_of_methods target_options)

-- `int(alive_test)` behind `if target_options and alive_test`; `none` is an early return.
abbrev pub alive_number : AliveValue → Option ℤ
alive_number nothing = none
alive_number (given []) = none
alive_number (given (c ∷ s)) = int (c ∷ s)
alive_number (of_methods n) = if n == 0 then none else some (pos n)

abbrev pub oid_ping_host : Text
oid_ping_host = codes "1.3.6.1.4.1.25623.1.0.100315"

abbrev pub ping_pref : String → Bool → Text × Text
ping_pref name value = (oid_ping_host ++ codes name, yes_no value)

-- The six preferences of a bit field.
abbrev pub ping_prefs : ℕ → Dict Text
ping_prefs n =
    ping_pref ":1:checkbox:Do a TCP ping" (has_bit n tcp_ack_bit || has_bit n tcp_syn_bit)
    ∷ ping_pref ":2:checkbox:TCP ping tries also TCP-SYN ping"
        (has_bit n tcp_syn_bit && has_bit n tcp_ack_bit)
    ∷ ping_pref ":7:checkbox:TCP ping tries only TCP-SYN ping"
        (has_bit n tcp_syn_bit && not (has_bit n tcp_ack_bit))
    ∷ ping_pref ":3:checkbox:Do an ICMP ping" (has_bit n icmp_bit)
    ∷ ping_pref ":4:checkbox:Use ARP" (has_bit n arp_bit)
    ∷ ping_pref ":5:checkbox:Mark unrechable Hosts as dead (not scanning)"
        (not (has_bit n consider_alive_bit))
    ∷ []

-- `alive_test < 1 or alive_test > 31`
abbrev pub prefs_in_range : Option ℤ → Dict Text
prefs_in_range (some (pos n)) = if ltb n 1 || ltb 31 n then [] else ping_prefs n
prefs_in_range _ = []

unfoldable pub build_alive_test_opt_as_prefs : Dict Text → Dict Text
build_alive_test_opt_as_prefs target_options =
    prefs_in_range (alive_number (alive_value target_options))
