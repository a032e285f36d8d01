-- ===== src/Py/Text/Lacks.antt =====
-- Texts that lack a character, and the last character of a text.
use ospd_openvas.Prelude.{
  suc, refl, false, some, arith, true, [], subst, length, ◌≡◌, ◌++◌, ◌∷◌, ◌≢◌, get_elem?, All, ℕ,
}
use ospd_openvas.Prelude.Int.{negsuc}
use ospd_openvas.Py.Text.Parts.{Lacks}
use ospd_openvas.Py.Text.{starts_with, has_sub, Text, find_sub, remove_char, count}
use ospd_openvas.Py.Slice.{at}

pub Lacks-of_All : (c : ℕ) (P : ℕ → Type 0) → ¬ P c → (s : Text) → All P s → Lacks c s
Lacks-of_All c P h [] _ = tt
Lacks-of_All c P h (d ∷ s) (hd, hs) = ((λ e. h (subst P e hd)), Lacks-of_All c P h s hs)

module _ (c : ℕ) where
  pub count-append : (p s : Text) → Lacks c p → count c (p ++ s) ≡ count c s
  unfolding count
  count-append [] s h = refl
  count-append (d ∷ p) s (hd, h) = ground (arith, count-append p s h)

  pub count-cons_ne : (d : ℕ) (s : Text) → d ≢ c → count c (d ∷ s) ≡ count c s
  unfolding count
  count-cons_ne d s h = ground arith

  pub count-cons_self : (s : Text) → count c (c ∷ s) ≡ suc (count c s)
  unfolding count
  count-cons_self s = ground arith

  pub count_of_Lacks : (s : Text) → Lacks c s → count c s ≡ 0
  unfolding count
  count_of_Lacks [] h = refl
  count_of_Lacks (d ∷ s) (hd, h) = ground (arith, count_of_Lacks s h)

  pub remove_char_of_Lacks : (s : Text) → Lacks c s → remove_char c s ≡ s
  unfolding remove_char
  remove_char_of_Lacks [] h = refl
  remove_char_of_Lacks (d ∷ s) (hd, h) = ground (arith, remove_char_of_Lacks s h)

  pub has_sub_of_Lacks_head : (d : ℕ) (s : Text) → Lacks c s → has_sub (c ∷ d ∷ []) s ≡ false
  unfolding has_sub starts_with
  has_sub_of_Lacks_head d [] h = refl
  has_sub_of_Lacks_head d (e ∷ s) (he, h) = ground (arith, has_sub_of_Lacks_head d s h)

  pub has_sub_of_Lacks_second : (d : ℕ) (s : Text) → Lacks c s → has_sub (d ∷ c ∷ []) s ≡ false
  unfolding has_sub starts_with
  has_sub_of_Lacks_second d [] h = refl
  has_sub_of_Lacks_second d (e ∷ []) h = ground arith
  has_sub_of_Lacks_second d (e ∷ f ∷ s) (he, (hf, h)) =
      ground (arith, has_sub_of_Lacks_second d (f ∷ s) (hf, h))

  -- A text of two characters whose first one stands only behind `p`.
  pub find_sub-append :
      (d : ℕ) (p s : Text) → Lacks c p → find_sub (c ∷ d ∷ []) (p ++ (c ∷ d ∷ s)) ≡ some (length p)
  unfolding find_sub starts_with
  find_sub-append d [] s h = ground arith
  find_sub-append d (e ∷ p) s (he, h) = ground (arith, find_sub-append d p s h)

  pub has_sub-append : (d : ℕ) (p s : Text) → has_sub (c ∷ d ∷ []) (p ++ (c ∷ d ∷ s)) ≡ true
  unfolding has_sub starts_with
  has_sub-append d [] s = ground arith
  has_sub-append d (e ∷ p) s = ground (arith, has_sub-append d p s)

-- The last character of `c ∷ s`.
unfoldable pub last_of : ℕ → Text → ℕ
last_of c [] = c
last_of c (d ∷ s) = last_of d s

pub last_of-append : (c d : ℕ) (p s : Text) → last_of c (p ++ (d ∷ s)) ≡ last_of d s
unfolding last_of
last_of-append c d [] s = refl
last_of-append c d (e ∷ p) s = last_of-append e d p s

pub last_of-All : (P : ℕ → Type 0) (c : ℕ) (s : Text) → All P (c ∷ s) → P (last_of c s)
unfolding last_of
last_of-All P c [] (h, _) = h
last_of-All P c (d ∷ s) (_, h) = last_of-All P d s h

get_elem?-last : (c : ℕ) (s : Text) → get_elem? (c ∷ s) (length s) ≡ some (last_of c s)
unfolding last_of
get_elem?-last c [] = refl
get_elem?-last c (d ∷ s) = get_elem?-last d s

pub at-last : (c : ℕ) (s : Text) → at (c ∷ s) (negsuc 0) ≡ some (last_of c s)
unfolding at
at-last c s = ground (arith, get_elem?-last c s)
