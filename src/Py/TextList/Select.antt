-- ===== src/Py/TextList/Select.antt =====
-- The texts of a list that satisfy a test.
use ospd_openvas.Prelude.{
  ◌∙◌, sym, ap, inr, inl, Bool-cases, refl, not, ◌&&◌, true, arith, false, ◌≡◌, if◌then◌else◌, Bool,
  List, [], ◌∷◌,
}
use ospd_openvas.Py.Text.{text_eq_iff, text_eq, Text}
use ospd_openvas.Py.Dict.Laws.{text_eq_refl}
use ospd_openvas.Py.TextList.{NoRepeat, remove, has_text}

-- The elements of a list that satisfy a test, in order.
abbrev pub select : (Text → Bool) → List Text → List Text
select p [] = []
select p (x ∷ xs) = let rest = select p xs in if p x then x ∷ rest else rest

pub select_cong :
    (p q : Text → Bool) (xs : List Text)
    → ((x : Text) → has_text x xs ≡ true → p x ≡ q x)
    → select p xs ≡ select q xs
unfolding has_text
select_cong p q [] h = refl
select_cong p q (x ∷ xs) h =
    let same : p x ≡ q x = h x (ground (arith, text_eq_refl x)) in
    let rest : select p xs ≡ select q xs = select_cong p q xs (λ y e. h y (ground arith)) in
    ground (arith, same, rest)

pub select-select :
    (p q : Text → Bool) (xs : List Text) → select p (select q xs) ≡ select (λ x. q x && p x) xs
select-select p q [] = refl
select-select p q (x ∷ xs) = ground (arith, select-select p q xs)

pub has_text-select :
    (p : Text → Bool) (y : Text) (xs : List Text)
    → has_text y xs ≡ false
    → has_text y (select p xs) ≡ false
unfolding has_text
has_text-select p y [] h = refl
has_text-select p y (x ∷ xs) h = ground (arith, has_text-select p y xs)

pub select-NoRepeat : (p : Text → Bool) (xs : List Text) → NoRepeat xs → NoRepeat (select p xs)
select-NoRepeat p [] h = tt
select-NoRepeat p (x ∷ xs) (h, hs) =
    ground (arith, has_text-select p x xs h, select-NoRepeat p xs hs)

pub select_all :
    (p : Text → Bool) (xs : List Text)
    → ((x : Text) → has_text x xs ≡ true → p x ≡ true)
    → select p xs ≡ xs
unfolding has_text
select_all p [] h = refl
select_all p (x ∷ xs) h =
    let same : p x ≡ true = h x (ground (arith, text_eq_refl x)) in
    let rest : select p xs ≡ xs = select_all p xs (λ y e. h y (ground arith)) in
    ground (arith, same, rest)

-- A text that a list lacks differs from those that it has.
differs :
    (oid x y : Text) (xs : List Text)
    → has_text x xs ≡ false
    → text_eq oid x ≡ true
    → has_text y xs ≡ true
    → not (text_eq oid y) ≡ true
differs oid x y xs absent same present = elim (Bool-cases (text_eq oid y)) [
  | inl e ↦
      let y_is_x : y ≡ x = sym ((text_eq_iff oid y).0 e) ∙ (text_eq_iff oid x).0 same in
      let both : has_text y xs ≡ false = ap (λ z. has_text z xs) y_is_x ∙ absent in
      ground (arith, both, present)
  | inr e ↦ ap not e
]

pub remove-select :
    (oid : Text) (xs : List Text)
    → NoRepeat xs
    → remove oid xs ≡ select (λ x. not (text_eq oid x)) xs
unfolding remove
remove-select oid [] h = refl
remove-select oid (x ∷ xs) (h, hs) = elim (Bool-cases (text_eq oid x)) [
  | inl e ↦
      let all : select (λ y. not (text_eq oid y)) xs ≡ xs =
        select_all (λ y. not (text_eq oid y)) xs (λ y. differs oid x y xs h e) in
      rw (e, all) refl
  | inr e ↦ rw (e, remove-select oid xs hs) refl
]

pub absent_differs :
    (oid x : Text) (xs : List Text)
    → has_text oid xs ≡ false
    → has_text x xs ≡ true
    → text_eq oid x ≡ false
absent_differs oid x xs absent present = elim (Bool-cases (text_eq oid x)) [
  | inl e ↦
      let both : has_text x xs ≡ false =
        ap (λ z. has_text z xs) (sym ((text_eq_iff oid x).0 e)) ∙ absent in
      ground (arith, both, present)
  | inr e ↦ e
]
