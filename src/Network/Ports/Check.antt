-- ===== src/Network/Ports/Check.antt =====
-- The check of a port string passes on what `port_list_compress` prints.
use ospd_openvas.Py.Number.RoundTrip.{
  str-ne-nil, Lacks-of_IsDigit, scan_one, str-IsDigit, int-scan, IsDigit,
}
use ospd_openvas.Prelude.{
  inr, inl, ◌==◌, Bool-cases, refl, append_assoc, arith, false, All-append, ◌++◌, true, [], ◌∷◌,
  map, ◌≢◌, All, ◌≤◌, ◌≡◌, List, ℕ,
}
use ospd_openvas.Py.Number.{str}
use ospd_openvas.Network.Ports.Compress.{last_port, port_list_compress, group_text}
use ospd_openvas.Py.Result.{ok}
use ospd_openvas.Py.Text.Parts.{Lacks}
use ospd_openvas.Py.Text.{join, Text}
use ospd_openvas.Network.Ports.{reads_int, bad_dash}

-- The characters of a list of port ranges: digits, commas and dashes.
abbrev pub IsItemChar : ℕ → Type 0
IsItemChar c = (b',' ≤ c) × (c ≤ b'9') × (c ≢ b'.') × (c ≢ b'/')

All-IsItemChar_of_IsDigit : (s : Text) → All IsDigit s → All IsItemChar s
All-IsItemChar_of_IsDigit [] h = tt
All-IsItemChar_of_IsDigit (c ∷ s) (h, hs) = (omega arith, All-IsItemChar_of_IsDigit s hs)

group_text-IsItemChar : (g : List (ℕ × ℕ)) → All IsItemChar (group_text g)
unfolding group_text
group_text-IsItemChar [] = tt
group_text-IsItemChar ((i, x) ∷ g) =
    let last : ℕ = last_port (i, x) g in
    let printed : (n : ℕ) → All IsItemChar (str n) =
      λ n. All-IsItemChar_of_IsDigit (str n) (str-IsDigit n) in
    elim (Bool-cases (x == last)) [
      | inl e ↦ rw e (printed x)
      | inr e ↦
          rw e (All-append _ (str x) (b'-' ∷ str last) (printed x) (omega arith, printed last))
    ]

join-IsItemChar : (ps : List Text) → All (All IsItemChar) ps → All IsItemChar (join b',' ps)
unfolding join
join-IsItemChar [] h = tt
join-IsItemChar (p ∷ []) (h, _) = h
join-IsItemChar (p ∷ q ∷ ps) (h, hs) =
    All-append _ p (b',' ∷ join b',' (q ∷ ps)) h (omega arith, join-IsItemChar (q ∷ ps) hs)

groups-IsItemChar : (gs : List (List (ℕ × ℕ))) → All (All IsItemChar) (map group_text gs)
groups-IsItemChar [] = tt
groups-IsItemChar (g ∷ gs) = (group_text-IsItemChar g, groups-IsItemChar gs)

pub port_list_compress-IsItemChar : (ports : List ℕ) → All IsItemChar (port_list_compress ports)
unfolding port_list_compress
port_list_compress-IsItemChar [] = tt
port_list_compress-IsItemChar (p ∷ ports) = join-IsItemChar _ (groups-IsItemChar _)

-- Whatever stands before the text, no dash of it is bad.
abbrev pub DashesPass : Text → Type 0
DashesPass s = (prev : ℕ) → bad_dash prev s ≡ ok false

bad_dash-cons : (prev c : ℕ) (s : Text) → c ≢ b'-' → bad_dash prev (c ∷ s) ≡ bad_dash c s
unfolding bad_dash
bad_dash-cons prev c [] h = ground arith
bad_dash-cons prev c (d ∷ s) h = ground arith

pub DashesPass-cons : (c : ℕ) (s : Text) → c ≢ b'-' → DashesPass s → DashesPass (c ∷ s)
DashesPass-cons c s h pass prev = rw (bad_dash-cons prev c s h) (pass c)

DashesPass-append : (p s : Text) → Lacks b'-' p → DashesPass s → DashesPass (p ++ s)
DashesPass-append [] s h pass = pass
DashesPass-append (c ∷ p) s (hc, h) pass =
    DashesPass-cons c (p ++ s) hc (DashesPass-append p s h pass)

reads_int_of_IsDigit : (c : ℕ) → IsDigit c → reads_int c ≡ true
unfolding reads_int
reads_int_of_IsDigit c h = ground (arith, int-scan (c ∷ []) (h, tt) (scan_one c h))

-- A dash behind digits and before a digit passes.
DashesPass-dash :
    (p s : Text) (d : ℕ)
    → p ≢ []
    → All IsDigit p
    → IsDigit d
    → DashesPass (d ∷ s)
    → DashesPass (p ++ (b'-' ∷ d ∷ s))
DashesPass-dash [] s d h _ hd pass prev = absurd (h refl)
DashesPass-dash (c ∷ []) s d h (hc, _) hd pass prev =
    rw (bad_dash-cons prev c (b'-' ∷ d ∷ s) (omega arith)) (
      unfold bad_dash in
      ground (arith, reads_int_of_IsDigit c hc, reads_int_of_IsDigit d hd, pass b'-'))
DashesPass-dash (c ∷ e ∷ p) s d h (hc, hs) hd pass prev =
    DashesPass-cons c _ (omega arith) (DashesPass-dash (e ∷ p) s d (λ f. cc) hs hd pass) prev

-- A printed number behind a dash, and what follows.
DashesPass-range :
    (p q s : Text)
    → p ≢ []
    → q ≢ []
    → All IsDigit p
    → All IsDigit q
    → DashesPass s
    → DashesPass ((p ++ (b'-' ∷ q)) ++ s)
DashesPass-range p [] s h k hp hq pass = absurd (k refl)
DashesPass-range p (d ∷ q) s h k hp (hd, hq) pass = rw append_assoc (
    DashesPass-dash p (q ++ s) d h hp hd
      (DashesPass-append (d ∷ q) s (Lacks-of_IsDigit b'-' (d ∷ q) (omega arith) (hd, hq)) pass))

group_text-DashesPass :
    (g : List (ℕ × ℕ)) (s : Text) → DashesPass s → DashesPass (group_text g ++ s)
unfolding group_text
group_text-DashesPass [] s pass = pass
group_text-DashesPass ((i, x) ∷ g) s pass =
    let last : ℕ = last_port (i, x) g in
    elim (Bool-cases (x == last)) [
      | inl e ↦ rw e (
          DashesPass-append (str x) s (Lacks-of_IsDigit b'-' (str x) (omega arith) (str-IsDigit x))
            pass)
      | inr e ↦ rw e (
          DashesPass-range (str x) (str last) s (str-ne-nil x) (str-ne-nil last) (str-IsDigit x)
            (str-IsDigit last) pass)
    ]

groups-DashesPass :
    (gs : List (List (ℕ × ℕ))) (s : Text)
    → DashesPass s
    → DashesPass (join b',' (map group_text gs) ++ s)
unfolding join
groups-DashesPass [] s pass = pass
groups-DashesPass (g ∷ []) s pass = group_text-DashesPass g s pass
groups-DashesPass (g ∷ h ∷ gs) s pass = rw append_assoc (
    group_text-DashesPass g _
      (DashesPass-cons b',' _ (omega arith) (groups-DashesPass (h ∷ gs) s pass)))

pub port_list_compress-DashesPass :
    (ports : List ℕ) (s : Text) → DashesPass s → DashesPass (port_list_compress ports ++ s)
unfolding port_list_compress
port_list_compress-DashesPass [] s pass = pass
port_list_compress-DashesPass (p ∷ ports) s pass = groups-DashesPass _ s pass
