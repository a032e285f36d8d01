-- ===== src/Py/Dict.antt =====
-- Python's `dict` with text keys: an association list in the order of insertion.
pub mod Laws
use ospd_openvas.Prelude.{List, [], ◌∷◌, Option, none, some, Bool, true, false, if◌then◌else◌, map}
use ospd_openvas.Py.Text.{Text, text_eq}

abbrev pub Dict {ℓ} : Type ℓ → Type ℓ
Dict A = List (Text × A)

-- `d.get(key)`
unfoldable pub get {ℓ} : {A : Type ℓ} → Text → Dict A → Option A
get key [] = none
get key ((k, a) ∷ d) = if text_eq key k then some a else get key d

-- `d[key] = value`
unfoldable pub put {ℓ} : {A : Type ℓ} → Text → A → Dict A → Dict A
put key value [] = (key, value) ∷ []
put key value ((k, a) ∷ d) =
    let rest = put key value d in if text_eq key k then (k, value) ∷ d else (k, a) ∷ rest

-- `del d[key]`, and nothing on a missing key.
unfoldable pub erase {ℓ} : {A : Type ℓ} → Text → Dict A → Dict A
erase key [] = []
erase key ((k, a) ∷ d) = let rest = erase key d in if text_eq key k then rest else (k, a) ∷ rest

abbrev pub keys {ℓ} : {A : Type ℓ} → Dict A → List Text
keys [] = []
keys ((k, a) ∷ d) = k ∷ keys d
