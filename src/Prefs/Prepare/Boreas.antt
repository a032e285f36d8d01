-- ===== src/Prefs/Prepare/Boreas.antt =====
-- The alive test that is stored for the scanner (`prepare_boreas_alive_test` of
-- ospd_openvas/preferencehandler.py).
use ospd_openvas.Prefs.Prepare.Stored.{add_each-stored, stored}
use ospd_openvas.Prelude.{
  ◌∙◌, refl, inr, ap, arith, inl, ◌==◌, Bool-cases, [], true, ◌∷◌, ◌++◌, not, none, ◌||◌, ◌≡◌, ◌≤◌,
  ℕ, Bool,
}
use ospd_openvas.Prefs.AliveTest.Methods.{alive_value-of_methods, field-bits}
use ospd_openvas.Prefs.AliveTest.{
  alive_value, method, consider_alive_bit, arp_bit, tcp_ack_bit, is_set, tcp_syn_bit,
  alive_test_methods_to_bit_field, icmp_bit, has_bit,
}
use ospd_openvas.Prefs.Prepare.{
  boreas_number, boreas_ports, boreas_methods, prepare_boreas_alive_test,
}
use ospd_openvas.Py.Result.{ok}
use ospd_openvas.Py.Number.{str}
use ospd_openvas.Py.Dict.{get, Dict}
use ospd_openvas.Py.Text.{codes, Text}
use ospd_openvas.Kb.Redis.{SetLaws, ListLaws, Redis}
use ospd_openvas.Prelude.Int.{pos}

-- The methods that a number stands for, with ICMP where no method is on.
abbrev pub StandsFor : Bool → Bool → Bool → Bool → Bool → ℕ → Type 0
StandsFor icmp tcp_syn tcp_ack arp consider_alive n =
    (1 ≤ n)
    × (n ≤ 31)
    × (has_bit n icmp_bit ≡ icmp || not (icmp || tcp_syn || tcp_ack || arp || consider_alive))
    × (has_bit n tcp_syn_bit ≡ tcp_syn)
    × (has_bit n tcp_ack_bit ≡ tcp_ack)
    × (has_bit n arp_bit ≡ arp)
    × (has_bit n consider_alive_bit ≡ consider_alive)

number_of_methods :
    (icmp tcp_syn tcp_ack arp consider_alive : Bool)
    → (n : ℕ) × (boreas_methods
          (pos (alive_test_methods_to_bit_field icmp tcp_syn tcp_ack arp consider_alive))
        ≡ (codes "ALIVE_TEST|||" ++ str n) ∷ [])
      × StandsFor icmp tcp_syn tcp_ack arp consider_alive n
number_of_methods icmp tcp_syn tcp_ack arp consider_alive =
    let n = alive_test_methods_to_bit_field icmp tcp_syn tcp_ack arp consider_alive in
    let (small, zero_iff, ack, syn, ping, use_arp, alive) =
      field-bits icmp tcp_syn tcp_ack arp consider_alive in
    elim (Bool-cases (n == 0)) [
      | inl e ↦ (2, rw e refl, ground (arith, zero_iff, e))
      | inr e ↦ (
        n,
        ground (arith, e, small),
        ground (arith, zero_iff, e, small, ack, syn, ping, use_arp, alive),
      )
    ]

-- Where the setting of the scanner is on, and the target options have no bit field and name methods:
-- one number from 1 to 31 is stored, whose bits are the methods that are 1, or ICMP where none is,
-- and behind it the ports for the alive test, if there are any.
pub prepare_boreas_alive_test-methods :
    (redis : Redis) (index : ℕ) (scan_id : Text) (target_options : Dict Text) (s : redis.State)
    → ListLaws redis
    → SetLaws redis
    → get (codes "alive_test") target_options ≡ none
    → is_set (get (codes "alive_test_methods") target_options) ≡ true
    → (n : ℕ) × (new : redis.State) × (prepare_boreas_alive_test redis index scan_id true
          target_options s
        ≡ ok new)
      × (stored redis index scan_id new
          ≡ stored redis index scan_id s
            ++ ((codes "ALIVE_TEST|||" ++ str n)
                ∷ boreas_ports (get (codes "alive_test_ports") target_options)))
      × StandsFor
          (method "icmp" target_options)
          (method "tcp_syn" target_options)
          (method "tcp_ack" target_options)
          (method "arp" target_options)
          (method "consider_alive" target_options)
          n
unfolding prepare_boreas_alive_test
prepare_boreas_alive_test-methods redis index scan_id target_options s laws sets absent named =
    let (n, prefs, stands) =
      number_of_methods (method "icmp" target_options) (method "tcp_syn" target_options)
        (method "tcp_ack" target_options) (method "arp" target_options)
        (method "consider_alive" target_options) in
    let ports = boreas_ports (get (codes "alive_test_ports") target_options) in
    let all : boreas_methods (boreas_number (alive_value target_options)) ++ ports
        ≡ (codes "ALIVE_TEST|||" ++ str n) ∷ ports =
      ap (λ v. boreas_methods (boreas_number v) ++ ports)
        (alive_value-of_methods target_options absent named)
      ∙ ap (λ l. l ++ ports) prefs in
    let (new, run, held) =
      add_each-stored redis index scan_id
        (boreas_methods (boreas_number (alive_value target_options)) ++ ports) s laws sets in
    (n, new, run, held ∙ ap (λ l. stored redis index scan_id s ++ l) all, stands)
