-- ===== src/Network/Ports.antt =====
-- The port list functions of ospd/network.py, in the source's order. A port is a natural number:
-- `int` is called on texts without a minus sign, where its result is not negative.
pub mod Compress
pub mod Check
pub mod PortString
pub mod RoundTrip
pub mod Valid
mod Tests
use ospd_openvas.Prelude.{
  ℕ, suc, ◌+◌, ◌-◌, ◌≡◌, refl, Bool, true, false, not, ◌&&◌, ◌||◌, List, [], ◌∷◌, ◌++◌, Option,
  none, some, length, get_elem?, ltb, leb, ◌==◌, if◌then◌else◌, take, drop,
}
use ospd_openvas.Prelude.Int.{ℤ, pos, negsuc, pos_part, ◌-ℤ◌, ltb_ℤ}
use ospd_openvas.Py.Text.{
  Text, codes, text_eq, split, find, find_sub, has_char, has_sub, count, remove_char, starts_with,
}
use ospd_openvas.Py.Slice.{at, upto, onward, position}
use ospd_openvas.Py.Number.{int}
use ospd_openvas.Py.Order.{range, sort}
use ospd_openvas.Py.Result.{
  Result, ok, raise, value_error, index_error, ◌>>=◌, ◌>>◌, or_raise, refuse_if,
}

abbrev pub is_empty : List ℕ → Bool
is_empty [] = true
is_empty (_ ∷ _) = false

-- The end of `range(a, int(..) + 1)`: nothing lies below a negative end.
abbrev end_of_range : ℤ → ℕ
end_of_range (pos h) = suc h
end_of_range (negsuc _) = 0

-- `none` is the result None.
unfoldable pub port_range_expand : Text → Option (List ℕ)
port_range_expand portrange = elim (find b'-' portrange) [
  | none ↦ none
  | some i ↦ elim (int (take i portrange)) [
    | none ↦ none
    | some lo ↦ elim (int (drop (i + 1) portrange)) [
      | none ↦ none
      | some hi ↦ some (range (pos_part lo) (end_of_range hi))
    ]
  ]
]

unfoldable pub port_str_arrange : Text → Text
port_str_arrange ports = elim (find b'T' ports) [
  | none ↦ ports
  | some b_tcp ↦ elim (find b'U' ports) [
    | none ↦ ports
    | some b_udp ↦
        if ltb b_udp b_tcp then drop b_tcp ports ++ drop b_udp (take b_tcp ports) else ports
  ]
]

-- The pattern [^TU:0-9, \-\n] does not match the character.
unfoldable pub is_port_char : ℕ → Bool
is_port_char c =
    (c == b'T')
    || ((c == b'U')
        || ((c == b':')
            || ((leb b'0' c && leb c b'9')
                || ((c == b',') || ((c == b' ') || ((c == b'-') || (c == 10)))))))

-- `re.search(pattern, port_str)`
unfoldable pub has_bad_char : Text → Bool
has_bad_char [] = false
has_bad_char (c ∷ s) = not (is_port_char c) || has_bad_char s

-- `int(c)` of one character does not raise.
unfoldable pub reads_int : ℕ → Bool
reads_int c = elim (int (c ∷ [])) [ none ↦ false | some _ ↦ true ]

-- The loop over the indices: every '-' stands between two digits. `prev` is the character at
-- `index - 1`, which is the last one at index 0.
unfoldable pub bad_dash : ℕ → Text → Result Bool
bad_dash prev [] = ok false
bad_dash prev (c ∷ []) =
    if c == b'-' then (if not (reads_int prev) then ok true else raise index_error) else ok false
bad_dash prev (c ∷ d ∷ s) =
    let rest = bad_dash c (d ∷ s) in
    if c == b'-' then (if not (reads_int prev && reads_int d) then ok true else rest) else rest

unfoldable pub ports_str_check_failed : Text → Result Bool
ports_str_check_failed port_str =
    if has_bad_char port_str
      || (ltb 1 (count b'T' port_str)
          || (ltb 1 (count b'U' port_str)
              || (has_sub (b'-' ∷ 10 ∷ []) port_str || has_sub (10 ∷ b'-' ∷ []) port_str)))
    then ok true
    else do
      first ← or_raise index_error (at port_str (pos 0))
      last ← or_raise index_error (at port_str (negsuc 0))
      let few_colons = ltb (count b':' port_str) (count b'T' port_str + count b'U' port_str)
      let failed = (first == b'-') || ((last == b'-') || few_colons)
      if failed then ok true else bad_dash last port_str

-- `if len(ports) > 1 and ports[b - 1] == ',': ports = ports[: b - 1] + ports[b:]`
unfoldable pub drop_comma : Text → ℤ → Result Text
drop_comma ports b =
    if ltb 1 (length ports)
    then (do
      c ← or_raise index_error (at ports (b -ℤ pos 1))
      ok (if c == b',' then upto ports (b -ℤ pos 1) ++ onward ports b else ports))
    else ok ports

-- The body of `for port in tports.split(',')`: the ports that one item adds to the list.
unfoldable pub ports_of_item : Text → Result (List ℕ)
ports_of_item port =
    if has_char b'-' port
    then elim (port_range_expand port) [ none ↦ ok [] | some ports ↦ ok ports ]
    else if is_empty port
    then ok []
    else (do n ← or_raise value_error (int port); ok (pos_part n ∷ []))

unfoldable pub ports_of_items : List Text → Result (List ℕ)
ports_of_items [] = ok []
ports_of_items (port ∷ items) = do
  ports ← ports_of_item port
  rest ← ports_of_items items
  ok (ports ++ rest)

-- `if tports: for port in ...; tcp_list.sort()`, and the same for `uports`.
unfoldable pub port_list : Text → Result (List ℕ)
port_list [] = ok []
port_list (c ∷ s) = do ports ← ports_of_items (split b',' (c ∷ s)); ok (sort ports)

-- `s[s.index(p) + 2 :]`
unfoldable pub behind : Text → Text → Result Text
behind p s = do i ← or_raise value_error (find_sub p s); ok (drop (i + 2) s)

-- The texts of the tcp and of the udp ports.
unfoldable pub tcp_and_udp : Text → ℤ → ℤ → Result (Text × Text)
tcp_and_udp ports (pos _) (pos _) = do
  t ← or_raise value_error (find_sub (codes "T:") ports)
  u ← or_raise value_error (find_sub (codes "U:") ports)
  uports ← behind (codes "U:") ports
  ok (drop (t + 2) (take u ports), uports)
tcp_and_udp ports (negsuc _) (pos _) = do uports ← behind (codes "U:") ports; ok ([], uports)
tcp_and_udp ports (pos _) (negsuc _) = do tports ← behind (codes "T:") ports; ok (tports, [])
tcp_and_udp ports (negsuc _) (negsuc _) = ok (ports, [])

abbrev pub Lists : Type 0
Lists = Option (List ℕ) × Option (List ℕ)

-- Both lists, or `[None, None]` if both are empty.
unfoldable pub lists : List ℕ → List ℕ → Lists
lists [] [] = (none, none)
lists tcp udp = (some tcp, some udp)

unfoldable pub is_missing : ℕ → Text → Text → Bool
is_missing c header ports = elim (find c ports) [
  | none ↦ false
  | some _ ↦ not (has_sub header ports)
]

-- The rest of `ports_as_list`, once the port string is checked and without blanks.
unfoldable pub parse_ports : Text → Result Lists
parse_ports ports =
    if is_missing b'T' (codes "T:") ports || is_missing b'U' (codes "U:") ports
    then ok (none, none)
    else do
      let b_tcp = position b'T' ports
      let b_udp = position b'U' ports
      ports1 ← drop_comma ports b_tcp
      ports2 ← drop_comma ports1 b_udp
      (tports, uports) ← tcp_and_udp (port_str_arrange ports2) b_tcp b_udp
      tcp ← port_list tports
      udp ← port_list uports
      ok (lists tcp udp)

unfoldable pub ports_as_list : Text → Result Lists
ports_as_list [] = ok (none, none)
ports_as_list (c ∷ s) = do
  failed ← ports_str_check_failed (c ∷ s)
  let ports = remove_char 10 (remove_char b' ' (c ∷ s))
  if failed then ok (none, none) else parse_ports ports

-- `for port in ports: if port < 1 or port > 65535: return False`
unfoldable pub all_in_range : List ℕ → Bool
all_in_range [] = true
all_in_range (port ∷ ports) = not (ltb port 1 || ltb 65535 port) && all_in_range ports

-- A list that is None or empty counts as false.
abbrev pub listed : Option (List ℕ) → List ℕ
listed none = []
listed (some ports) = ports

unfoldable pub valid_ports : Lists → Bool
valid_ports (tcp, udp) =
    if is_empty (listed tcp) && is_empty (listed udp)
    then false
    else all_in_range (listed tcp) && all_in_range (listed udp)

unfoldable pub valid_port_list : Text → Result Bool
valid_port_list [] = ok false
valid_port_list (c ∷ s) =
    let ports = remove_char b' ' (c ∷ s) in
    if text_eq ports (codes "U:,T:") then ok true else do
      failed ← ports_str_check_failed ports
      if failed then ok false else do lists ← ports_as_list ports; ok (valid_ports lists)

-- Opens every function of this file and what they call.
unfoldable pub program : Unit {0}
unfolding find int range port_range_expand port_str_arrange is_port_char has_bad_char reads_int
    bad_dash count has_sub at ports_str_check_failed upto onward ◌-ℤ◌ drop_comma has_char
    ports_of_item ports_of_items split sort port_list find_sub behind tcp_and_udp lists is_missing
    position parse_ports remove_char ports_as_list all_in_range valid_ports text_eq valid_port_list
program = tt
