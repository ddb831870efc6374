-- ===== src/Prelude/Results.antt =====
-- `Result<T, E>`, with `?` as the bind of a `do` block.
use mathlib.Core.Path.{◌≡◌, refl, sym, ap}
use mathlib.Core.Logic.{◌⊎◌, inl, inr}
use native.Mathlib.Omega.{arith}
use mathlib.Core.Option.{Option, none, some}

pub data Result {ℓ κ} (T : Type ℓ) (E : Type κ) : Type (ℓ ⊔ κ) where
  ok : T → Result T E
  err : E → Result T E

module _ {ℓ κ} {T : Type ℓ} {E : Type κ} where
  -- `Option::ok_or`.
  abbrev pub ok_or : E → Option T → Result T E
  ok_or missing (some value) = ok value
  ok_or missing none = err missing

  abbrev pub map_err {μ} : {F : Type μ} → (E → F) → Result T E → Result T F
  map_err wrap (err why) = err (wrap why)
  map_err wrap (ok value) = ok value

  -- `?`
  infixl 5 ◌>>=◌
  abbrev pub ◌>>=◌ {μ} : {U : Type μ} → Result T E → (T → Result U E) → Result U E
  err why >>= next = err why
  ok value >>= next = next value

infixl 5 ◌>>◌
abbrev pub ◌>>◌ {κ μ} : {U : Type μ} {E : Type κ} → Result (Unit {0}) E → Result U E → Result U E
first >> second = first >>= λ (_ : Unit {0}). second

pub Result-cases {ℓ κ} :
    {A : Type ℓ} {E : Type κ} (r : Result A E) → ((a : A) × (r ≡ ok a)) ⊎ ((e : E) × (r ≡ err e))
Result-cases (ok a) = inl (a, refl)
Result-cases (err e) = inr (e, refl)

pub >>=-eq-ok {ℓ κ μ} :
    {T : Type ℓ} {U : Type κ} {E : Type μ} (first : Result T E) (next : T → Result U E) {value : U}
    → first >>= next ≡ ok value
    → (found : T) × (first ≡ ok found) × (next found ≡ ok value)
>>=-eq-ok (err why) next both = cc
>>=-eq-ok (ok found) next both = (found, refl, both)

pub map_err-eq-ok {ℓ κ μ} :
    {A : Type ℓ} {E : Type κ} {F : Type μ} (f : E → F) (r : Result A E) {a : A}
    → map_err f r ≡ ok a
    → r ≡ ok a
map_err-eq-ok f (ok a) h = ground arith
map_err-eq-ok f (err e) h = cc

abbrev from_ok {ℓ κ} : {A : Type ℓ} {E : Type κ} → A → Result A E → A
from_ok d (ok a) = a
from_ok d (err e) = d

pub ok_inj {ℓ κ} : {A : Type ℓ} {E : Type κ} {a b : A} → ◌≡◌ {A = Result A E} (ok a) (ok b) → a ≡ b
ok_inj {a} e = ap (from_ok a) e

abbrev from_some {ℓ} : {A : Type ℓ} → A → Option A → A
from_some d (some a) = a
from_some d none = d

pub some_inj {ℓ} : {A : Type ℓ} {a b : A} → some a ≡ some b → a ≡ b
some_inj {a} e = ap (from_some a) e

abbrev from_err {ℓ κ} : {A : Type ℓ} {E : Type κ} → E → Result A E → E
from_err d (ok a) = d
from_err d (err e) = e

pub err_inj {ℓ κ} :
    {A : Type ℓ} {E : Type κ} {a b : E} → ◌≡◌ {A = Result A E} (err a) (err b) → a ≡ b
err_inj {a} e = ap (from_err a) e

pub >>=-eq-err {ℓ κ μ} :
    {T : Type ℓ} {U : Type κ} {E : Type μ} (first : Result T E) (next : T → Result U E) {why : E}
    → first >>= next ≡ err why
    → (first ≡ err why) ⊎ ((found : T) × (first ≡ ok found) × (next found ≡ err why))
>>=-eq-err (err e) next both = inl (ap (λ x. err x) (err_inj both))
>>=-eq-err (ok found) next both = inr (found, refl, both)

pub map_err-eq-err {ℓ κ μ} :
    {A : Type ℓ} {E : Type κ} {F : Type μ} (f : E → F) (r : Result A E) {why : F}
    → map_err f r ≡ err why
    → (e : E) × (r ≡ err e) × (why ≡ f e)
map_err-eq-err f (ok a) h = cc
map_err-eq-err f (err e) h = (e, refl, sym (err_inj h))

pub ok_or-eq-ok {ℓ κ} :
    {A : Type ℓ} {E : Type κ} (e : E) (o : Option A) {a : A} → ok_or e o ≡ ok a → o ≡ some a
ok_or-eq-ok e none h = cc
ok_or-eq-ok e (some a) h = ap (λ x. some x) (ok_inj h)
