-- ===== src/Network/Ports/PortString.antt =====
-- `ports_as_list` on a string "T:<tcp>,U:<udp>": the check, the headers and the commas.
use ospd_openvas.Py.Text.Lacks.{
  has_sub-append, find_sub-append, remove_char_of_Lacks, last_of-append, has_sub_of_Lacks_head,
  has_sub_of_Lacks_second, at-last, count_of_Lacks, count-append, last_of, Lacks-of_All,
}
use ospd_openvas.Network.Ports.{
  lists, port_list, is_missing, parse_ports, ports_as_list, behind, tcp_and_udp, drop_comma,
  port_str_arrange, ports_str_check_failed, is_port_char, has_bad_char,
}
use ospd_openvas.Prelude.{
  true, length-append, append_assoc, drop, suc, ◌+◌, length, ap, ◌∙◌, some, append-nil, refl, [],
  All-append, false, sym, arith, ◌++◌, ◌≡◌, ◌≢◌, ◌∷◌, All, ℕ,
}
use ospd_openvas.Py.Result.{◌>>=◌, ok}
use ospd_openvas.Py.Text.{has_sub, codes, find, remove_char, count, Text}
use ospd_openvas.Py.Text.Parts.{
  drop-append, drop-suc-append, get_elem?-length, take-length-append, find-append, Lacks,
}
use ospd_openvas.Py.Slice.{bound, onward, upto, position, at}
use ospd_openvas.Prelude.Int.{◌-ℤ◌, pos, negsuc}
use ospd_openvas.Network.Ports.Check.{DashesPass, IsItemChar}

-- "T:<tcp>,U:<udp>"
abbrev pub port_string : Text → Text → Text
port_string x y = b'T' ∷ b':' ∷ (x ++ (b',' ∷ b'U' ∷ b':' ∷ y))

-- What is left of it without the comma between the lists.
abbrev joined : Text → Text → Text
joined x y = b'T' ∷ b':' ∷ (x ++ (b'U' ∷ b':' ∷ y))

Lacks-of_IsItemChar : (c : ℕ) (s : Text) → ¬ IsItemChar c → All IsItemChar s → Lacks c s
Lacks-of_IsItemChar c s h hs = Lacks-of_All c IsItemChar h s hs

has_bad_char-append : (p s : Text) → All IsItemChar p → has_bad_char (p ++ s) ≡ has_bad_char s
unfolding has_bad_char is_port_char
has_bad_char-append [] s h = refl
has_bad_char-append (c ∷ p) s (hc, h) = ground (arith, has_bad_char-append p s h)

-- A comma behind `c ∷ p` is dropped.
drop_comma-append :
    (c : ℕ) (p q : Text)
    → drop_comma (c ∷ (p ++ (b',' ∷ q))) (pos (suc (length (c ∷ p)))) ≡ ok (c ∷ (p ++ q))
unfolding drop_comma ◌-ℤ◌ at upto onward bound
drop_comma-append c p q = ground (
  arith,
  length-append p (b',' ∷ q),
  get_elem?-length (c ∷ p) q b',',
  take-length-append (c ∷ p) (b',' ∷ q),
  drop-suc-append (c ∷ p) q b',',
)

drop_two-append : (x y : Text) → drop (length (b'T' ∷ b':' ∷ x) + 2) (joined x y) ≡ y
drop_two-append x y = drop-append (b'T' ∷ b':' ∷ x) (b'U' ∷ b':' ∷ y) 2

module _ (x y : Text) (hx : All IsItemChar x) (hy : All IsItemChar y) where
  pub Lacks-port_string :
      (c : ℕ) → ¬ IsItemChar c → c ≢ b'T' → c ≢ b'U' → c ≢ b':' → Lacks c (port_string x y)
  Lacks-port_string c h t u k = (
    (λ e. t (sym e)),
    (
      (λ e. k (sym e)),
      All-append _ x (b',' ∷ b'U' ∷ b':' ∷ y) (Lacks-of_IsItemChar c x h hx) (
        (λ e. h (rw (← e) (omega arith))),
        ((λ e. u (sym e)), ((λ e. k (sym e)), Lacks-of_IsItemChar c y h hy)),
      ),
    ),
  )

  has_bad_char-port_string : has_bad_char (port_string x y) ≡ false
  unfolding has_bad_char is_port_char
  has_bad_char-port_string = ground (
    arith,
    has_bad_char-append x (b',' ∷ b'U' ∷ b':' ∷ y) hx,
    has_bad_char-append y [] hy,
    append-nil y,
  )

  count-port_string :
      (c : ℕ)
      → ¬ IsItemChar c
      → count c (port_string x y) ≡ count c (b'T' ∷ b':' ∷ b',' ∷ b'U' ∷ b':' ∷ [])
  unfolding count
  count-port_string c h = ground (
    arith,
    count-append c x (b',' ∷ b'U' ∷ b':' ∷ y) (Lacks-of_IsItemChar c x h hx),
    count_of_Lacks c y (Lacks-of_IsItemChar c y h hy),
  )

  last-port_string : at (port_string x y) (negsuc 0) ≡ some (last_of b':' y)
  last-port_string =
      at-last b'T' (b':' ∷ (x ++ (b',' ∷ b'U' ∷ b':' ∷ y)))
      ∙ ap some (unfold last_of in last_of-append b':' b',' x (b'U' ∷ b':' ∷ y))

  counts-port_string :
      (count b'T' (port_string x y) ≡ 1)
      × (count b'U' (port_string x y) ≡ 1)
      × (count b':' (port_string x y) ≡ 2)
  unfolding count
  counts-port_string = (
    count-port_string b'T' (omega arith),
    count-port_string b'U' (omega arith),
    count-port_string b':' (omega arith),
  )

  first-port_string : at (port_string x y) (pos 0) ≡ some b'T'
  unfolding at
  first-port_string = refl

  newline-port_string : Lacks 10 (port_string x y)
  newline-port_string = Lacks-port_string 10 (omega arith) (omega arith) (omega arith) (omega arith)

  -- The check passes if no dash is bad.
  pub ports_str_check_failed-port_string :
      DashesPass (port_string x y)
      → last_of b':' y ≢ b'-'
      → ports_str_check_failed (port_string x y) ≡ ok false
  unfolding ports_str_check_failed
  ports_str_check_failed-port_string dashes no_dash =
      let (t, u, k) = counts-port_string in
      ground (
        arith,
        has_bad_char-port_string,
        t,
        u,
        k,
        has_sub_of_Lacks_second 10 b'-' (port_string x y) newline-port_string,
        has_sub_of_Lacks_head 10 b'-' (port_string x y) newline-port_string,
        first-port_string,
        last-port_string,
        dashes (last_of b':' y),
      )

  remove_blanks-port_string : remove_char 10 (remove_char b' ' (port_string x y)) ≡ port_string x y
  remove_blanks-port_string =
      ap (remove_char 10) (
        remove_char_of_Lacks b' ' (port_string x y)
          (Lacks-port_string b' ' (omega arith) (omega arith) (omega arith) (omega arith)))
      ∙ remove_char_of_Lacks 10 (port_string x y) newline-port_string

  Lacks-U : Lacks b'U' (b'T' ∷ b':' ∷ x)
  Lacks-U = (omega arith, (omega arith, Lacks-of_IsItemChar b'U' x (omega arith) hx))

  position-T : position b'T' (port_string x y) ≡ pos 0
  unfolding position find
  position-T = refl

  comma_outside : port_string x y ≡ (b'T' ∷ b':' ∷ (x ++ (b',' ∷ []))) ++ (b'U' ∷ b':' ∷ y)
  comma_outside = ap (λ s. b'T' ∷ b':' ∷ s) (sym (append_assoc x (b',' ∷ []) (b'U' ∷ b':' ∷ y)))

  find-U : find b'U' (port_string x y) ≡ some (suc (length (b'T' ∷ b':' ∷ x)))
  find-U =
      ap (find b'U') comma_outside
      ∙ find-append b'U' (b':' ∷ y) (b'T' ∷ b':' ∷ (x ++ (b',' ∷ [])))
          (All-append _ (b'T' ∷ b':' ∷ x) (b',' ∷ []) Lacks-U (omega arith))
      ∙ ap some (omega (arith, length-append x (b',' ∷ [])))

  position-U : position b'U' (port_string x y) ≡ pos (suc (length (b'T' ∷ b':' ∷ x)))
  unfolding position
  position-U = ground (arith, find-U)

  find-T : find b'T' (port_string x y) ≡ some 0
  unfolding find
  find-T = refl

  has_header-T : has_sub (codes "T:") (port_string x y) ≡ true
  has_header-T = has_sub-append b'T' b':' [] (x ++ (b',' ∷ b'U' ∷ b':' ∷ y))

  has_header-U : has_sub (codes "U:") (port_string x y) ≡ true
  has_header-U =
      ap (has_sub (codes "U:")) comma_outside
      ∙ has_sub-append b'U' b':' (b'T' ∷ b':' ∷ (x ++ (b',' ∷ []))) y

  -- The header stands at the front, so the character before it is the last one: no comma.
  drop_comma-T : last_of b':' y ≢ b',' → drop_comma (port_string x y) (pos 0) ≡ ok (port_string x y)
  unfolding drop_comma ◌-ℤ◌
  drop_comma-T h = ground (arith, last-port_string)

  find-joined : find b'U' (joined x y) ≡ some (length (b'T' ∷ b':' ∷ x))
  find-joined = find-append b'U' (b':' ∷ y) (b'T' ∷ b':' ∷ x) Lacks-U

  find-joined-T : find b'T' (joined x y) ≡ some 0
  unfolding find
  find-joined-T = refl

  arrange-joined : port_str_arrange (joined x y) ≡ joined x y
  unfolding port_str_arrange
  arrange-joined = ground (arith, find-joined, find-joined-T)

  tcp_and_udp-joined : (b c : ℕ) → tcp_and_udp (joined x y) (pos b) (pos c) ≡ ok (x, y)
  unfolding tcp_and_udp behind
  tcp_and_udp-joined b c = ground (
    arith,
    find_sub-append b'U' b':' (b'T' ∷ b':' ∷ x) y Lacks-U,
    find_sub-append b'T' b':' [] (x ++ (b'U' ∷ b':' ∷ y)) tt,
    take-length-append (b'T' ∷ b':' ∷ x) (b'U' ∷ b':' ∷ y),
    drop_two-append x y,
  )

  headers_present :
      (is_missing b'T' (codes "T:") (port_string x y) ≡ false)
      × (is_missing b'U' (codes "U:") (port_string x y) ≡ false)
  unfolding is_missing
  headers_present = (ground (arith, find-T, has_header-T), ground (arith, find-U, has_header-U))

  -- Parsing cuts the string into the texts of the two lists.
  parse_ports-port_string :
      last_of b':' y ≢ b','
      → parse_ports (port_string x y)
        ≡ (do tcp ← port_list x; udp ← port_list y; ok (lists tcp udp))
  unfolding parse_ports
  parse_ports-port_string no_comma =
      let (no_t, no_u) = headers_present in
      ground (
        arith,
        no_t,
        no_u,
        position-T,
        position-U,
        drop_comma-T no_comma,
        drop_comma-append b'T' (b':' ∷ x) (b'U' ∷ b':' ∷ y),
        arrange-joined,
        tcp_and_udp-joined 0 (suc (length (b'T' ∷ b':' ∷ x))),
      )

  pub ports_as_list-port_string :
      DashesPass (port_string x y)
      → last_of b':' y ≢ b'-'
      → last_of b':' y ≢ b','
      → ports_as_list (port_string x y)
        ≡ (do tcp ← port_list x; udp ← port_list y; ok (lists tcp udp))
  unfolding ports_as_list
  ports_as_list-port_string dashes no_dash no_comma = ground (
    arith,
    ports_str_check_failed-port_string dashes no_dash,
    remove_blanks-port_string,
    parse_ports-port_string no_comma,
  )
