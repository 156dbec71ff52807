-- ===== src/Python.antt =====
-- What the modules take from the language: dynamically typed values, exceptions, and the chains
-- of calls that may raise.
use dataset_rt.Prelude.{
  ℕ, ℤ, pos, String, ◌≡◌, refl, ◌⊎◌, inl, inr, Bool, true, false, List, [], ◌∷◌,
}

-- The values that a dynamically typed argument may hold. `opaque` is any other object: a float, a
-- multiprocessing context, a callable. A boolean is not a plain integer here (`type(x) is int`).
pub data Value : Type 0 where
  null : Value
  bool : Bool → Value
  int : ℤ → Value
  str : String → Value
  opaque : Value

abbrev pub nat : ℕ → Value
nat n = int (pos n)

-- An exception, by its class and the fixed text of its message.
pub data Error : Type 0 where
  value_error type_error index_error runtime_error : String → Error
  zero_division file_exists os_error : Error

pub data Result {ℓ} (A : Type ℓ) : Type ℓ where
  ok : A → Result A
  err : Error → Result A

-- The statements behind a call that may raise.
infixl 5 ◌>>=◌ ◌>>◌
abbrev pub ◌>>=◌ {ℓ κ} : {A : Type ℓ} {B : Type κ} → Result A → (A → Result B) → Result B
ok value >>= next = next value
err error >>= next = err error

-- `if test: raise error`
abbrev pub raise_if : Bool → Error → Result (Unit {0})
raise_if true e = err e
raise_if false e = ok tt

abbrev pub ◌>>◌ {κ} : {B : Type κ} → Result (Unit {0}) → Result B → Result B
check >> rest = check >>= λ _. rest

-- `[f(x) for x in xs]`, where `f` may raise.
module _ {ℓ κ} {A : Type ℓ} {B : Type κ} where
  unfoldable pub traverse : (A → Result B) → List A → Result (List B)
  traverse call [] = ok []
  traverse call (item ∷ items) = do
    first ← call item
    others ← traverse call items
    ok (first ∷ others)

-- What a successful chain gives, for a goal that follows from the success of both of its parts.
module _ {ℓ κ μ} {A : Type ℓ} {B : Type κ} {C : Type μ} where
  pub >>=-elim :
      (call : Result A) (next : A → Result B) {result : B}
      → (call >>= next) ≡ ok result
      → ((value : A) → call ≡ ok value → next value ≡ ok result → C)
      → C
  >>=-elim (ok value) next h goal = goal value refl h
  >>=-elim (err error) next h goal = cc

pub ok-injective {ℓ} : {A : Type ℓ} {a b : A} → ok a ≡ ok b → a ≡ b
ok-injective h = cc

pub Result-cases {ℓ} :
    {A : Type ℓ} (r : Result A) → ((a : A) × (r ≡ ok a)) ⊎ ((e : Error) × (r ≡ err e))
Result-cases (ok a) = inl (a, refl)
Result-cases (err e) = inr (e, refl)
