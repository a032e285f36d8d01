-- ===== src/Network/Targets/Ranges.antt =====
-- The addresses of IPv4 ranges and blocks.
use ospd_openvas.Prelude.{
  sym, ◌-◌, refl, zero, ◌%◌, arith, ap, map, ◌/◌, ◌∙◌, ◌≤◌, some, ◌++◌, suc, ◌+◌, ◌≡◌, ◌*◌, All,
  ◌<◌, ℕ, [], ◌∷◌,
}
use ospd_openvas.Py.Number.RoundTrip.{int-str, str-IsDigit, Lacks-of_IsDigit}
use ospd_openvas.Py.Text.Parts.{split-join, Lacks}
use ospd_openvas.Py.Text.{join, split, Text}
use ospd_openvas.Network.Targets.{
  zero_bytes, unpack, ipv4_range_to_list, target_to_ipv4_short, Sockets, pack,
}
use ospd_openvas.Py.Number.{str}
use ospd_openvas.Py.Order.{range, count_up}

pack-suc : (n q x : ℕ) → x < 256 → pack (suc n) (q * 256 + x) ≡ pack n q ++ (x ∷ [])
unfolding pack
pack-suc n q x h =
    let e : (q * 256 + x) / 256 ≡ q = omega arith in
    let f : (q * 256 + x) % 256 ≡ x = omega arith in rw (e, f) refl

pack_one : (x : ℕ) → x < 256 → pack 1 x ≡ x ∷ []
unfolding pack
pack_one x h = let f : x % 256 ≡ x = omega arith in rw f refl

zero_bytes_value : (n : ℕ) → unpack 0 (zero_bytes n) ≡ 0
unfolding unpack
zero_bytes_value zero = refl
zero_bytes_value (suc n) = zero_bytes_value n

pack-four :
    (a b c x : ℕ)
    → a < 256
    → b < 256
    → c < 256
    → x < 256
    → pack 4 (((a * 256 + b) * 256 + c) * 256 + x) ≡ a ∷ b ∷ c ∷ x ∷ []
pack-four a b c x ha hb hc hx =
    pack-suc 3 ((a * 256 + b) * 256 + c) x hx
    ∙ ap (λ l. l ++ (x ∷ [])) (pack-suc 2 (a * 256 + b) c hc)
    ∙ ap (λ l. (l ++ (c ∷ [])) ++ (x ∷ [])) (pack-suc 1 a b hb)
    ∙ ap (λ l. ((l ++ (b ∷ [])) ++ (c ∷ [])) ++ (x ∷ [])) (pack_one a ha)

module _ (sockets : Sockets) where
  -- The address A.B.C.x.
  abbrev pub address : ℕ → ℕ → ℕ → ℕ → Text
  address a b c x = sockets.ntoa (a ∷ b ∷ c ∷ x ∷ [])

  map_addresses :
      (a b c d n : ℕ)
      → a < 256
      → b < 256
      → c < 256
      → d + n ≤ 256
      → map
          (λ value. sockets.ntoa (pack 4 value))
          (count_up (((a * 256 + b) * 256 + c) * 256 + d) n)
        ≡ map (address a b c) (count_up d n)
  unfolding count_up
  map_addresses a b c d zero ha hb hc h = refl
  map_addresses a b c d (suc n) ha hb hc h =
      let one = ap sockets.ntoa (pack-four a b c d ha hb hc (omega arith)) in
      let more = map_addresses a b c (suc d) n ha hb hc (omega arith) in
      let base : ℕ = ((a * 256 + b) * 256 + c) * 256 in
      let moved : base + suc d ≡ suc (base + d) = omega arith in
      let f : ℕ → Text = λ value. sockets.ntoa (pack 4 value) in
      ap (λ t. t ∷ map f (count_up (suc (base + d)) n)) one
      ∙ ap (λ l. address a b c d ∷ l) (ap (λ v. map f (count_up v n)) (sym moved) ∙ more)

  range_addresses :
      (a b c d e : ℕ)
      → a < 256
      → b < 256
      → c < 256
      → d < 256
      → e < 256
      → ipv4_range_to_list sockets (a ∷ b ∷ c ∷ d ∷ []) (a ∷ b ∷ c ∷ e ∷ [])
        ≡ map (address a b c) (range d (suc e))
  unfolding ipv4_range_to_list unpack range
  range_addresses a b c d e ha hb hc hd he =
      let base : ℕ = ((a * 256 + b) * 256 + c) * 256 in
      let start : ℕ = unpack 0 (a ∷ b ∷ c ∷ d ∷ []) in
      let end : ℕ = unpack 0 (a ∷ b ∷ c ∷ e ∷ []) in
      let starts : start ≡ base + d = omega arith in
      let many : suc end - start ≡ suc e - d = omega arith in
      let f : ℕ → Text = λ value. sockets.ntoa (pack 4 value) in
      ap (λ v. map f (count_up v (suc end - start))) starts
      ∙ ap (λ n. map f (count_up (base + d) n)) many
      ∙ map_addresses a b c d (suc e - d) ha hb hc (omega arith)

  -- The short range "first-e", where `first` is the address A.B.C.d and e is at most 255, names the
  -- addresses A.B.C.d to A.B.C.e: none of them, where e is less than d.
  pub target_to_ipv4_short-addresses :
      (first : Text) (a b c d e : ℕ)
      → sockets.pton4 first ≡ some (a ∷ b ∷ c ∷ d ∷ [])
      → Lacks b'-' first
      → All (λ x. x < 256) (a ∷ b ∷ c ∷ d ∷ e ∷ [])
      → target_to_ipv4_short sockets (first ++ (b'-' ∷ str e))
        ≡ some (map (address a b c) (range d (suc e)))
  unfolding target_to_ipv4_short
  target_to_ipv4_short-addresses first a b c d e h lacks (ha, (hb, (hc, (hd, (he, _))))) =
      let parts : split b'-' (first ++ (b'-' ∷ str e)) ≡ first ∷ str e ∷ [] =
        unfold join in
        split-join b'-' first (str e ∷ [])
          (lacks, (Lacks-of_IsDigit b'-' (str e) (omega arith) (str-IsDigit e), tt)) in
      ground
        (arith, parts, h, int-str e, zero_bytes_value d, range_addresses a b c d e ha hb hc hd he)
