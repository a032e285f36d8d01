-- ===== src/Py/TextList.antt =====
-- Lists of texts: membership, and the list without repetitions.
pub mod Select
use ospd_openvas.Prelude.{
  ◌∙◌, ap, true, refl, inr, inl, ◌||◌, false, arith, ◌≡◌, Bool-cases, if◌then◌else◌, ◌++◌, Bool,
  List, [], ◌∷◌,
}
use ospd_openvas.Py.Text.{text_eq_iff, Text, text_eq}

-- `s in list`
unfoldable pub has_text : Text → List Text → Bool
has_text s [] = false
has_text s (x ∷ list) = text_eq s x || has_text s list

-- `list.remove(s)`, and nothing where it is not there.
unfoldable pub remove : Text → List Text → List Text
remove s [] = []
remove s (x ∷ list) = let rest = remove s list in if text_eq s x then list else x ∷ rest

-- No text stands in the list twice.
abbrev pub NoRepeat : List Text → Type 0
NoRepeat [] = Unit
NoRepeat (x ∷ xs) = (has_text x xs ≡ false) × NoRepeat xs

-- `list(OrderedDict.fromkeys(xs))`, behind the keys that are there.
unfoldable pub fromkeys : List Text → List Text → List Text
fromkeys seen [] = seen
fromkeys seen (x ∷ xs) = fromkeys (if has_text x seen then seen else seen ++ (x ∷ [])) xs

pub text_eq_sym : (s t : Text) → text_eq s t ≡ text_eq t s
unfolding text_eq
text_eq_sym [] [] = refl
text_eq_sym [] (d ∷ t) = refl
text_eq_sym (c ∷ s) [] = refl
text_eq_sym (c ∷ s) (d ∷ t) = ground (arith, text_eq_sym s t)

pub has_text-append :
    (s : Text) (xs ys : List Text) → has_text s (xs ++ ys) ≡ has_text s xs || has_text s ys
unfolding has_text
has_text-append s [] ys = refl
has_text-append s (x ∷ xs) ys = ground (arith, has_text-append s xs ys)

NoRepeat-append_one :
    (xs : List Text) (x : Text) → NoRepeat xs → has_text x xs ≡ false → NoRepeat (xs ++ (x ∷ []))
unfolding has_text
NoRepeat-append_one [] x h k = (refl, tt)
NoRepeat-append_one (y ∷ xs) x (h, hs) k =
    ground (arith, NoRepeat-append_one xs x hs, has_text-append y xs (x ∷ []), text_eq_sym x y)

pub fromkeys-NoRepeat : (seen xs : List Text) → NoRepeat seen → NoRepeat (fromkeys seen xs)
unfolding fromkeys
fromkeys-NoRepeat seen [] h = h
fromkeys-NoRepeat seen (x ∷ xs) h = elim (Bool-cases (has_text x seen)) [
  | inl e ↦ rw e (fromkeys-NoRepeat seen xs h)
  | inr e ↦ rw e (fromkeys-NoRepeat (seen ++ (x ∷ [])) xs (NoRepeat-append_one seen x h e))
]

-- The same texts.
pub has_text-fromkeys :
    (s : Text) (seen xs : List Text)
    → has_text s (fromkeys seen xs) ≡ has_text s seen || has_text s xs
unfolding fromkeys has_text
has_text-fromkeys s seen [] = ground arith
has_text-fromkeys s seen (x ∷ xs) = elim (Bool-cases (has_text x seen)) [
  | inl e ↦
      let there : text_eq s x ≡ true → has_text s seen ≡ true =
        λ k. ap (λ z. has_text z seen) ((text_eq_iff s x).0 k) ∙ e in
      rw e (ground (arith, has_text-fromkeys s seen xs, there))
  | inr e ↦
      rw e
        (ground (arith, has_text-fromkeys s (seen ++ (x ∷ [])) xs, has_text-append s seen (x ∷ [])))
]
