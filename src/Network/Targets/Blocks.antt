-- ===== src/Network/Targets/Blocks.antt =====
-- The addresses of an IPv4 block in CIDR notation.
use ospd_openvas.Py.Number.RoundTrip.{int-str, str-IsDigit, Lacks-of_IsDigit}
use ospd_openvas.Py.Text.Parts.{split-join, Lacks}
use ospd_openvas.Py.Text.{join, split, Text}
use ospd_openvas.Py.Number.{str}
use ospd_openvas.Prelude.{
  ◌++◌, some, map, List, leb, ◌%◌, inr, inl, ◌⊎◌, ◌==◌, ◌&&◌, refl, Bool, true, ◌∙◌, ap, zero, ◌/◌,
  suc, ◌-◌, arith, ◌+◌, ◌*◌, ◌^◌, ◌≤◌, ◌<◌, ◌≡◌, ℕ, [], ◌∷◌,
}
use ospd_openvas.Py.Order.{range}
use ospd_openvas.Network.Targets.{
  ipv4_range_to_list, target_to_ipv4_cidr, Sockets, pack, unpack, bit_or,
}

bit_or_zero : (w a : ℕ) → a < 2 ^ w → bit_or w a 0 ≡ a
unfolding bit_or
bit_or_zero zero a h = omega arith
bit_or_zero (suc w) a h = ground (arith, bit_or_zero w (a / 2) (omega arith))

double_mul : (q p : ℕ) → q * (2 * p) ≡ 2 * (q * p)
double_mul q p = omega arith

-- Setting the lowest `k` bits of a number.
bit_or_mask :
    (w k q r : ℕ)
    → k ≤ w
    → r < 2 ^ k
    → q * 2 ^ k + r < 2 ^ w
    → bit_or w (q * 2 ^ k + r) (2 ^ k - 1) ≡ q * 2 ^ k + (2 ^ k - 1)
unfolding bit_or
bit_or_mask w zero q r hk hr h =
    let e : q * 2 ^ 0 + r ≡ q = omega arith in
    ap (λ x. bit_or w x (2 ^ 0 - 1)) e ∙ bit_or_zero w q (omega arith) ∙ omega arith
bit_or_mask zero (suc k) q r hk hr h = omega arith
bit_or_mask (suc w) (suc k) q r hk hr h =
    let p : ℕ = 2 ^ k in
    let two_p : 2 ^ suc k ≡ 2 * p = omega arith in
    let assoc : q * 2 ^ suc k ≡ 2 * (q * p) = ap (λ t. q * t) two_p ∙ double_mul q p in
    let half : (q * 2 ^ suc k + r) / 2 ≡ q * p + r / 2 = omega (arith, assoc) in
    let half_mask : (2 ^ suc k - 1) / 2 ≡ p - 1 = omega (arith) in
    let rest = bit_or_mask w k q (r / 2) (omega arith) (omega arith) (omega (arith, assoc)) in
    let odd : (2 ^ suc k - 1) % 2 ≡ 1 = omega arith in
    let whole : q * 2 ^ suc k + (2 ^ suc k - 1) ≡ 2 * (q * p + (p - 1)) + 1 =
      omega (arith, assoc) in
    ground (arith, half, half_mask, rest, odd, whole)

-- The mask of a block of `k` bits, for every `k` that the function takes.
mask_is : ℕ → Bool
mask_is k = 4294967295 / 2 ^ k == 2 ^ (32 - k) - 1

below : (ℕ → Bool) → ℕ → Bool
below p zero = true
below p (suc n) = let rest = below p n in p n && rest

masks : below mask_is 31 ≡ true
unfolding below mask_is
masks = refl

below_sound : (p : ℕ → Bool) (n k : ℕ) → below p n ≡ true → k < n → p k ≡ true
unfolding below
below_sound p zero k h l = absurd (omega (arith, l))
below_sound p (suc n) k h l =
    let where_is : (k ≡ n) ⊎ (k < n) = omega arith in
    elim where_is [ inl e ↦ ap p e ∙ ground arith | inr lt ↦ below_sound p n k (ground arith) lt ]

mask : (k : ℕ) → k ≤ 30 → 4294967295 / 2 ^ k ≡ 2 ^ (32 - k) - 1
unfolding mask_is
mask k h = ground (arith, below_sound mask_is 31 k masks (omega arith))

-- A multiple of `m` below `p * m` leaves room for another `m`.
room : (v p m : ℕ) → 0 < m → v < p * m → v / m * m + m ≤ p * m
room v p m hm h = grind arith

unpack-pack : (x : ℕ) → x < 4294967296 → unpack 0 (pack 4 x) ≡ x
unfolding unpack pack
unpack-pack x h = omega arith

whole_is : ℕ → Bool
whole_is k = (2 ^ k * 2 ^ (32 - k) == 4294967296) && leb 4 (2 ^ (32 - k))

wholes : below whole_is 31 ≡ true
unfolding below whole_is
wholes = refl

whole : (k : ℕ) → k ≤ 30 → (2 ^ k * 2 ^ (32 - k) ≡ 4294967296) × (4 ≤ 2 ^ (32 - k))
unfolding whole_is
whole k h = ground (arith, below_sound whole_is 31 k wholes (omega arith))

module _ (sockets : Sockets) where
  -- The addresses between two numbers, the first included.
  abbrev pub addresses_from : ℕ → ℕ → List Text
  addresses_from start end = map (λ value. sockets.ntoa (pack 4 value)) (range start end)

  ipv4_range-packed :
      (start end : ℕ)
      → start < 4294967296
      → end < 4294967296
      → ipv4_range_to_list sockets (pack 4 start) (pack 4 end) ≡ addresses_from start (suc end)
  unfolding ipv4_range_to_list
  ipv4_range-packed start end hs he = rw (unpack-pack start hs, unpack-pack end he) refl

  -- The last address that `target_to_ipv4_cidr` takes.
  end_value :
      (v k : ℕ)
      → k ≤ 30
      → v < 4294967296
      → bit_or 32 (v / 2 ^ (32 - k) * 2 ^ (32 - k) + 1) (4294967295 / 2 ^ k)
        ≡ v / 2 ^ (32 - k) * 2 ^ (32 - k) + (2 ^ (32 - k) - 1)
  end_value v k hk hv =
      let (product, four) = whole k hk in
      let gap = room v (2 ^ k) (2 ^ (32 - k)) (omega (arith, four)) (omega (arith, product)) in
      ap (bit_or 32 (v / 2 ^ (32 - k) * 2 ^ (32 - k) + 1)) (mask k hk)
      ∙ bit_or_mask 32 (32 - k) (v / 2 ^ (32 - k)) 1 (omega arith) (omega (arith, four))
          (omega (arith, gap, product, four))

  -- A block "first/k" with k between 1 and 30, where `first` is an address of 32 bits, names the
  -- addresses of the block without its first and its last one.
  pub target_to_ipv4_cidr-addresses :
      (first : Text) (packed : List ℕ) (k : ℕ)
      → sockets.pton4 first ≡ some packed
      → unpack 0 packed < 2 ^ 32
      → Lacks b'/' first
      → 1 ≤ k
      → k ≤ 30
      → target_to_ipv4_cidr sockets (first ++ (b'/' ∷ str k))
        ≡ some (
            addresses_from
              (unpack 0 packed / 2 ^ (32 - k) * 2 ^ (32 - k) + 1)
              (unpack 0 packed / 2 ^ (32 - k) * 2 ^ (32 - k) + 2 ^ (32 - k) - 1))
  unfolding target_to_ipv4_cidr
  target_to_ipv4_cidr-addresses first packed k h hv lacks low high =
      let parts : split b'/' (first ++ (b'/' ∷ str k)) ≡ first ∷ str k ∷ [] =
        unfold join in
        split-join b'/' first (str k ∷ [])
          (lacks, (Lacks-of_IsDigit b'/' (str k) (omega arith) (str-IsDigit k), tt)) in
      let v : ℕ = unpack 0 packed in
      let m : ℕ = 2 ^ (32 - k) in
      let net : ℕ = v / m * m in
      let (product, four) = whole k high in
      let gap = room v (2 ^ k) m (omega (arith, four)) (omega (arith, product)) in
      let listed =
        ipv4_range-packed (net + 1) (net + (m - 1) - 1) (omega (arith, gap, product, four))
          (omega (arith, gap, product, four)) in
      let last : suc (net + (m - 1) - 1) ≡ net + m - 1 = omega (arith, four) in
      ground (arith, parts, h, int-str k, end_value v k high hv, listed, last)
