-- ===== src/Py/Text/Parts.antt =====
-- `split` and `join` undo one another, and a part of a split does not hold the separator.
use ospd_openvas.Prelude.{
  ◌∙◌, suc, get_elem?, some, length, take, drop, true, ◌+◌, Bool, false, ℕ, ◌≡◌, refl, ap, ◌≢◌,
  List, [], ◌∷◌, ◌++◌, arith, All,
}
use mathlib.Core.Path.{◌≡⟨◌⟩◌, ◌∎}
use mathlib.Core.List.{reverse, reverse_aux, reverse-reverse}
use ospd_openvas.Py.Text.{find, Text, split, join, has_char, drop_while, strip_by, strip, is_space}

-- No character of the text is `c`.
abbrev pub Lacks : ℕ → Text → Type 0
Lacks c = All (λ d. d ≢ c)

module _ (sep : ℕ) where
  pub split-ne-nil : (s : Text) → split sep s ≢ []
  unfolding split
  split-ne-nil [] = λ e. cc
  split-ne-nil (c ∷ s) = ground (arith, split-ne-nil s)

  -- A text without the separator is one part.
  pub split_of_Lacks : (s : Text) → Lacks sep s → split sep s ≡ s ∷ []
  unfolding split
  split_of_Lacks [] h = refl
  split_of_Lacks (c ∷ s) (hc, hs) = ground (arith, split_of_Lacks s hs)

  pub split-append : (p s : Text) → Lacks sep p → split sep (p ++ (sep ∷ s)) ≡ p ∷ split sep s
  unfolding split
  split-append [] s h = ground arith
  split-append (c ∷ p) s (hc, hp) = ground (arith, split-append p s hp)

  -- Splitting a join gives the parts back, if there is a part and none holds the separator.
  pub split-join :
      (p : Text) (ps : List Text)
      → All (Lacks sep) (p ∷ ps)
      → split sep (join sep (p ∷ ps)) ≡ p ∷ ps
  unfolding join
  split-join p [] (h, _) = split_of_Lacks p h
  split-join p (q ∷ ps) (h, hs) =
      split sep (p ++ (sep ∷ join sep (q ∷ ps)))
      ≡⟨ split-append p (join sep (q ∷ ps)) h ⟩ p ∷ split sep (join sep (q ∷ ps))
      ≡⟨ ap (λ r. p ∷ r) (split-join q ps hs) ⟩ p ∷ q ∷ ps ∎

pub has_char_of_Lacks : (c : ℕ) (s : Text) → Lacks c s → has_char c s ≡ false
unfolding has_char
has_char_of_Lacks c [] h = refl
has_char_of_Lacks c (d ∷ s) (hd, hs) = ground (arith, has_char_of_Lacks c s hs)

All-reverse_aux {ℓ} :
    {A : Type ℓ} (P : A → Type 0) (xs ys : List A) → All P xs → All P ys → All P (reverse_aux xs ys)
All-reverse_aux P [] ys hx hy = hy
All-reverse_aux P (x ∷ xs) ys (px, hx) hy = All-reverse_aux P xs (x ∷ ys) hx (px, hy)

module _ (p : ℕ → Bool) where
  drop_while_id : (s : Text) → All (λ c. p c ≡ false) s → drop_while p s ≡ s
  unfolding drop_while
  drop_while_id [] h = refl
  drop_while_id (c ∷ s) (h, _) = rw (h, drop_while)

  -- Nothing is stripped from a text without such characters.
  pub strip_by_id : (s : Text) → All (λ c. p c ≡ false) s → strip_by p s ≡ s
  unfolding strip_by
  strip_by_id s h = cc (
    drop_while_id s h,
    drop_while_id (reverse s) (All-reverse_aux _ s [] h tt),
    reverse-reverse s,
  )

pub strip_id : (s : Text) → All (λ c. is_space c ≡ false) s → strip s ≡ s
unfolding strip
strip_id s h = strip_by_id is_space s h

-- A text is cut at the first character that the part before it lacks.
module _ (c : ℕ) (s : Text) where
  pub find-append : (p : Text) → Lacks c p → find c (p ++ (c ∷ s)) ≡ some (length p)
  unfolding find
  find-append [] h = ground arith
  find-append (d ∷ p) (hd, h) = ground (arith, find-append p h)

  pub has_char-append : (p : Text) → has_char c (p ++ (c ∷ s)) ≡ true
  unfolding has_char
  has_char-append [] = ground arith
  has_char-append (d ∷ p) = ground (arith, has_char-append p)

pub take-length-append : (p s : Text) → take (length p) (p ++ s) ≡ p
take-length-append [] s = refl
take-length-append (c ∷ p) s = ap (λ t. c ∷ t) (take-length-append p s)

pub drop-length-append : (p s : Text) → drop (length p) (p ++ s) ≡ s
drop-length-append [] s = refl
drop-length-append (c ∷ p) s = drop-length-append p s

pub drop-append : (p s : Text) (n : ℕ) → drop (length p + n) (p ++ s) ≡ drop n s
drop-append [] s n = ap (λ k. drop k s) {x = 0 + n} {y = n} (omega arith)
drop-append (c ∷ p) s n =
    ap (λ k. drop k (c ∷ (p ++ s))) {x = suc (length p) + n} {y = suc (length p + n)} (omega arith)
    ∙ drop-append p s n

pub drop-suc-append : (p s : Text) (c : ℕ) → drop (length p + 1) (p ++ (c ∷ s)) ≡ s
drop-suc-append [] s c = refl
drop-suc-append (d ∷ p) s c = ground (arith, drop-suc-append p s c)

pub get_elem?-length : (p s : Text) (c : ℕ) → get_elem? (p ++ (c ∷ s)) (length p) ≡ some c
get_elem?-length [] s c = refl
get_elem?-length (d ∷ p) s c = get_elem?-length p s c
