-- ===== src/Prelude/Lists.antt =====
-- Lists measured by native numbers, and predicates by recursion on a list.
use Prim.Native.Nat.{ℕ, zero, suc, ◌+◌}
use mathlib.Core.Path.{◌≡◌, subst}
use mathlib.Core.Bool.{Bool, true, false, ◌||◌}
use mathlib.Core.List.{List, [], ◌∷◌, ◌++◌, append_assoc, append-nil, map-append}
use native.Mathlib.Omega.{arith}
use mathlib.Core.Logic.{◌⊎◌, inl, inr}
use rosetta_mq.Prelude.Tests.{Bool-cases, if◌then◌else◌}

-- Lists put one behind the other, as `simp` rules.
pub ruleset list_laws = (append-nil, append_assoc, map-append)

module _ {ℓ} {A : Type ℓ} where
  abbrev pub length : List A → ℕ
  length [] = 0
  length (_ ∷ xs) = suc (length xs)

  abbrev pub drop : ℕ → List A → List A
  drop zero xs = xs
  drop (suc n) [] = []
  drop (suc n) (x ∷ xs) = drop n xs

  -- The library's `any` cannot be unfolded.
  abbrev pub any : (A → Bool) → List A → Bool
  any p [] = false
  any p (x ∷ xs) = p x || any p xs

  -- `Vec::is_empty` and `str::is_empty`.
  abbrev pub is_empty : List A → Bool
  is_empty [] = true
  is_empty (_ ∷ _) = false

  pub length-append : (xs ys : List A) → length (xs ++ ys) ≡ length xs + length ys
  length-append [] ys = omega arith
  length-append (x ∷ xs) ys = omega (arith, length-append xs ys)

-- Membership with its place, as data.
pub data In {ℓ} {A : Type ℓ} (a : A) : List A → Type ℓ where
  here : {xs : List A} → In a (a ∷ xs)
  there : {x : A} {xs : List A} → In a xs → In a (x ∷ xs)

module _ {ℓ κ} {A : Type ℓ} (P : A → Type κ) where
  abbrev pub All : List A → Type κ
  All [] = Unit
  All (x ∷ xs) = P x × All xs

  pub All-append : (xs ys : List A) → All xs → All ys → All (xs ++ ys)
  All-append [] ys _ hy = hy
  All-append (x ∷ xs) ys (px, hx) hy = (px, All-append xs ys hx hy)

  pub All-at : {a : A} (xs : List A) → All xs → In a xs → P a
  All-at [] h m = elim m [ ]
  All-at (x ∷ xs) h here = h.0
  All-at (x ∷ xs) h (there m) = All-at xs h.1 m

module _ {ℓ} {A : Type ℓ} where
  -- `Iterator::filter`; the library's wants a decision.
  unfoldable pub filter : (A → Bool) → List A → List A
  filter p [] = []
  filter p (x ∷ xs) = let rest = filter p xs in if p x then x ∷ rest else rest

  pub In-filter : (p : A → Bool) (xs : List A) {a : A} → In a xs → p a ≡ true → In a (filter p xs)
  unfolding filter
  In-filter p [] m h = elim m [ ]
  In-filter p (x ∷ xs) here h = rw h here
  In-filter p (x ∷ xs) (there m) h = elim (Bool-cases (p x)) [
    | inl e ↦ rw e (there (In-filter p xs m h))
    | inr e ↦ rw e (In-filter p xs m h)
  ]

  pub cons_inj : {x y : A} {xs ys : List A} → x ∷ xs ≡ y ∷ ys → (x ≡ y) × (xs ≡ ys)
  cons_inj e = ground arith

  In-cons : {a x : A} {xs ys : List A} → In a ys → ys ≡ x ∷ xs → (a ≡ x) ⊎ In a xs
  In-cons here e = inl (cons_inj e).0
  In-cons (there m) e = inr (subst (In _) (cons_inj e).1 m)

  pub filter-In : (p : A → Bool) (xs : List A) {a : A} → In a (filter p xs) → In a xs × (p a ≡ true)
  unfolding filter
  filter-In p [] m = elim m [ ]
  filter-In p (x ∷ xs) m = elim (Bool-cases (p x)) [
    | inl e ↦ elim (In-cons m (rw e)) [
      | inl h ↦ (rw h here, rw h e)
      | inr n ↦ let r = filter-In p xs n in (there r.0, r.1)
    ]
    | inr e ↦ let r = filter-In p xs (rw e at m) in (there r.0, r.1)
  ]

  pub In-past_second : {x a : A} (b : A) {es : List A} → In x (a ∷ es) → In x (a ∷ b ∷ es)
  In-past_second b here = here
  In-past_second b (there m) = there (there m)
