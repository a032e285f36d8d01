-- ===== src/Py/Dict/Laws.antt =====
-- What is found in a dict after a write or a deletion, and predicates on all its entries.
use ospd_openvas.Prelude.{
  refl, none, some, true, arith, false, ◌≡◌, ◌≢◌, ◌∷◌, [], inl, inr, Bool-cases, subst,
}
use ospd_openvas.Py.Text.{text_eq_iff, text_eq, Text}
use ospd_openvas.Py.Dict.{Dict, get, put, erase}

pub text_eq_refl : (s : Text) → text_eq s s ≡ true
text_eq_refl s = (text_eq_iff s s).1 refl

pub text_eq_of_ne : (s t : Text) → s ≢ t → text_eq s t ≡ false
text_eq_of_ne s t h = ground (arith, text_eq_iff s t)

module _ {A : Type 0} where
  pub get-put : (key : Text) (a : A) (d : Dict A) → get key (put key a d) ≡ some a
  unfolding get put
  get-put key a [] = ground (arith, text_eq_refl key)
  get-put key a ((k, b) ∷ d) = ground (arith, get-put key a d)

  pub get-put_other :
      (key other : Text) (a : A) (d : Dict A) → other ≢ key → get other (put key a d) ≡ get other d
  unfolding get put
  get-put_other key other a [] h = ground (arith, text_eq_of_ne other key h)
  get-put_other key other a ((k, b) ∷ d) h =
      ground (arith, get-put_other key other a d h, text_eq_iff key k, text_eq_iff other k)

  pub get-erase : (key : Text) (d : Dict A) → get key (erase key d) ≡ none
  unfolding get erase
  get-erase key [] = refl
  get-erase key ((k, b) ∷ d) = ground (arith, get-erase key d)

  pub get-erase_other :
      (key other : Text) (d : Dict A) → other ≢ key → get other (erase key d) ≡ get other d
  unfolding get erase
  get-erase_other key other [] h = refl
  get-erase_other key other ((k, b) ∷ d) h =
      ground (arith, get-erase_other key other d h, text_eq_iff key k, text_eq_iff other k)

  module _ (P : Text → A → Type 0) where
    abbrev pub AllEntries : Dict A → Type 0
    AllEntries [] = Unit
    AllEntries ((k, a) ∷ d) = P k a × AllEntries d

    pub AllEntries-put :
        (key : Text) (a : A) (d : Dict A) → P key a → AllEntries d → AllEntries (put key a d)
    unfolding put
    AllEntries-put key a [] h hs = (h, tt)
    AllEntries-put key a ((k, b) ∷ d) h (hb, hs) = elim (Bool-cases (text_eq key k)) [
      | inl e ↦ rw e (subst (λ x. P x a) ((text_eq_iff key k).0 e) h, hs)
      | inr e ↦ rw e (hb, AllEntries-put key a d h hs)
    ]

    pub AllEntries-erase : (key : Text) (d : Dict A) → AllEntries d → AllEntries (erase key d)
    unfolding erase
    AllEntries-erase key [] hs = tt
    AllEntries-erase key ((k, b) ∷ d) (hb, hs) = ground (arith, AllEntries-erase key d hs)

    pub AllEntries-get :
        (key : Text) (a : A) (d : Dict A) → AllEntries d → get key d ≡ some a → P key a
    unfolding get
    AllEntries-get key a [] hs e = cc
    AllEntries-get key a ((k, b) ∷ d) (hb, hs) e =
        ground (arith, AllEntries-get key a d hs, text_eq_iff key k)

-- A second write to a key takes the place of the first.
pub put-put :
    {A : Type 0} (key : Text) (a b : A) (d : Dict A) → put key b (put key a d) ≡ put key b d
unfolding put
put-put key a b [] = ground (arith, text_eq_refl key)
put-put key a b ((k, c) ∷ d) = ground (arith, put-put key a b d)
