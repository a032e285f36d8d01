-- ===== src/Py/Result.antt =====
-- A call that may raise: the exceptions that the program raises, handles or lets through.
use ospd_openvas.Prelude.{sym, subst, ap, ◌≡◌, refl, Option, none, some, Bool, true, false}

pub data Exception : Type 0 where
  value_error index_error key_error type_error attribute_error assertion_error : Exception
  command_error required_argument openvas_error os_error : Exception
  unpickling_error eof_error : Exception

pub data Result {ℓ} (Value : Type ℓ) : Type ℓ where
  raise : Exception → Result Value
  ok : Value → Result Value

infixl 5 ◌>>=◌
abbrev pub ◌>>=◌ {κ ℓ} : {V : Type κ} {W : Type ℓ} → Result V → (V → Result W) → Result W
raise exception >>= rest = raise exception
ok value >>= rest = rest value

infixl 5 ◌>>◌
abbrev pub ◌>>◌ {κ ℓ} : {V : Type κ} {W : Type ℓ} → Result V → Result W → Result W
first >> second = first >>= (λ _. second)

-- `none` stands for the exception `e`.
abbrev pub or_raise {ℓ} : {A : Type ℓ} → Exception → Option A → Result A
or_raise e none = raise e
or_raise e (some a) = ok a

-- `if test: raise e`
abbrev pub refuse_if : Bool → Exception → Result (Unit {0})
refuse_if true e = raise e
refuse_if false e = ok tt

-- A chain that gives a value has got one from its first call.
pub >>=-eq-ok {κ ℓ} :
    {V : Type κ} {W : Type ℓ} (first : Result V) (rest : V → Result W) {last : W}
    → first >>= rest ≡ ok last
    → (value : V) × (first ≡ ok value) × (rest value ≡ ok last)
>>=-eq-ok (raise exception) rest run = cc
>>=-eq-ok (ok value) rest run = (value, refl, run)

pub ok-injective {ℓ} : {A : Type ℓ} {a b : A} → ok a ≡ ok b → a ≡ b
ok-injective e = cc

pub or_raise-eq-ok {ℓ} :
    {A : Type ℓ} (e : Exception) (found : Option A) {a : A}
    → or_raise e found ≡ ok a
    → found ≡ some a
or_raise-eq-ok e none h = cc
or_raise-eq-ok e (some a) h = ap some (ok-injective h)

-- The call gives a value, and the value satisfies `P`.
abbrev pub Ends {ℓ κ} : {V : Type ℓ} → (V → Type κ) → Result V → Type (ℓ ⊔ κ)
Ends {V = V} P call = (value : V) × (call ≡ ok value) × P value

pub Ends->>= {ℓ κ μ ν} :
    {V : Type ℓ} {W : Type κ} {P : V → Type μ} {Q : W → Type ν} (call : Result V)
    (rest : V → Result W)
    → Ends P call
    → ((value : V) → P value → Ends Q (rest value))
    → Ends Q (call >>= rest)
Ends->>= {Q = Q} call rest (value, e, p) k = subst (λ r. Ends Q (r >>= rest)) (sym e) (k value p)
