-- ===== src/Prefs/AliveTest/Methods.antt =====
-- Alive tests that are given as single methods (ospd_openvas/preferencehandler.py).
use ospd_openvas.Prefs.AliveTest.{
  value_or_methods, alive_value, field_of_methods, method, is_set, build_alive_test_opt_as_prefs,
  ping_prefs, of_methods, alive_number, prefs_in_range, consider_alive_bit, arp_bit, icmp_bit,
  tcp_syn_bit, tcp_ack_bit, has_bit, ping_pref, alive_test_methods_to_bit_field,
}
use ospd_openvas.Prelude.{
  false, true, ◌∙◌, none, ltb, ap, ℕ, refl, if◌then◌else◌, arith, [], ◌&&◌, ◌∷◌, not, ◌||◌, ◌≡◌,
  ◌==◌, ◌≤◌, Bool,
}
use ospd_openvas.Py.Text.{codes, Text}
use ospd_openvas.Py.Dict.{get, Dict}

-- What the preferences of the ping VT say of the methods.
abbrev pub method_prefs : Bool → Bool → Bool → Bool → Bool → Dict Text
method_prefs icmp tcp_syn tcp_ack arp consider_alive =
    ping_pref ":1:checkbox:Do a TCP ping" (tcp_ack || tcp_syn)
    ∷ ping_pref ":2:checkbox:TCP ping tries also TCP-SYN ping" (tcp_syn && tcp_ack)
    ∷ ping_pref ":7:checkbox:TCP ping tries only TCP-SYN ping" (tcp_syn && not tcp_ack)
    ∷ ping_pref ":3:checkbox:Do an ICMP ping" icmp
    ∷ ping_pref ":4:checkbox:Use ARP" arp
    ∷ ping_pref ":5:checkbox:Mark unrechable Hosts as dead (not scanning)" (not consider_alive)
    ∷ []

-- A method that is named makes the field a number from 1 to 31 with its bit.
pub field-bits :
    (icmp tcp_syn tcp_ack arp consider_alive : Bool)
    → let n = alive_test_methods_to_bit_field icmp tcp_syn tcp_ack arp consider_alive in
      (n ≤ 31)
      × ((n == 0) ≡ not (icmp || tcp_syn || tcp_ack || arp || consider_alive))
      × (has_bit n tcp_ack_bit ≡ tcp_ack)
      × (has_bit n tcp_syn_bit ≡ tcp_syn)
      × (has_bit n icmp_bit ≡ icmp)
      × (has_bit n arp_bit ≡ arp)
      × (has_bit n consider_alive_bit ≡ consider_alive)
unfolding alive_test_methods_to_bit_field
field-bits icmp tcp_syn tcp_ack arp consider_alive = ground arith

prefs_of_number :
    (n : ℕ) (any : Bool) (prefs : Dict Text)
    → n ≤ 31
    → (n == 0) ≡ not any
    → ping_prefs n ≡ prefs
    → prefs_in_range (alive_number (of_methods n)) ≡ (if any then prefs else [])
prefs_of_number n true prefs small zero_iff e =
    rw zero_iff
      (ap (λ l. if ltb n 1 || ltb 31 n then [] else l) e ∙ ground (arith, small, zero_iff))
prefs_of_number n false prefs small zero_iff e = rw zero_iff refl

prefs_of_field :
    (icmp tcp_syn tcp_ack arp consider_alive : Bool)
    → prefs_in_range (
        alive_number
          (of_methods (alive_test_methods_to_bit_field icmp tcp_syn tcp_ack arp consider_alive)))
      ≡ (if icmp || tcp_syn || tcp_ack || arp || consider_alive
          then method_prefs icmp tcp_syn tcp_ack arp consider_alive
          else [])
prefs_of_field icmp tcp_syn tcp_ack arp consider_alive =
    let n = alive_test_methods_to_bit_field icmp tcp_syn tcp_ack arp consider_alive in
    let (small, zero_iff, ack, syn, ping, use_arp, alive) =
      field-bits icmp tcp_syn tcp_ack arp consider_alive in
    let prefs : ping_prefs n ≡ method_prefs icmp tcp_syn tcp_ack arp consider_alive =
      rw ack (rw syn (rw ping (rw use_arp (rw alive refl)))) in
    prefs_of_number n (icmp || tcp_syn || tcp_ack || arp || consider_alive)
      (method_prefs icmp tcp_syn tcp_ack arp consider_alive) small zero_iff prefs

pub alive_value-of_methods :
    (target_options : Dict Text)
    → get (codes "alive_test") target_options ≡ none
    → is_set (get (codes "alive_test_methods") target_options) ≡ true
    → alive_value target_options ≡ of_methods (field_of_methods target_options)
alive_value-of_methods target_options absent named =
    let field = field_of_methods target_options in
    ap (λ o. value_or_methods o (is_set (get (codes "alive_test_methods") target_options)) field)
      absent
    ∙ ap (λ b. value_or_methods none b field) named

-- Where the target options have no bit field and name methods, the preferences of the ping VT are
-- those of the methods that are 1, and there are none where no method is 1.
pub build_alive_test_opt_as_prefs-method_prefs :
    (target_options : Dict Text)
    → get (codes "alive_test") target_options ≡ none
    → is_set (get (codes "alive_test_methods") target_options) ≡ true
    → build_alive_test_opt_as_prefs target_options ≡ (
        if method "icmp" target_options
          || method "tcp_syn" target_options
          || method "tcp_ack" target_options
          || method "arp" target_options
          || method "consider_alive" target_options
        then method_prefs
            (method "icmp" target_options)
            (method "tcp_syn" target_options)
            (method "tcp_ack" target_options)
            (method "arp" target_options)
            (method "consider_alive" target_options)
        else [])
unfolding build_alive_test_opt_as_prefs
build_alive_test_opt_as_prefs-method_prefs target_options absent named =
    ap (λ v. prefs_in_range (alive_number v)) (alive_value-of_methods target_options absent named)
    ∙ prefs_of_field (method "icmp" target_options) (method "tcp_syn" target_options)
        (method "tcp_ack" target_options) (method "arp" target_options)
        (method "consider_alive" target_options)
