-- ===== src/Text/Affix.antt =====
-- Equality and suffixes of texts, as tests and as equations.
use rosetta_mq.Prelude.{◌≡◌, refl, ap, true, [], ◌∷◌, ◌++◌, ◌↔◌, arith, inl, inr, or_inv}
use rosetta_mq.Text.{Text, text_eq, ends_with}

pub text_eq_refl : (s : Text) → text_eq s s ≡ true
unfolding text_eq
text_eq_refl [] = refl
text_eq_refl (a ∷ s) = ground (arith, text_eq_refl s)

pub text_eq→eq : (s t : Text) → text_eq s t ≡ true → s ≡ t
unfolding text_eq
text_eq→eq [] [] h = refl
text_eq→eq [] (b ∷ t) h = cc
text_eq→eq (a ∷ s) [] h = cc
text_eq→eq (a ∷ s) (b ∷ t) h = ground (arith, text_eq→eq s t)

pub eq→text_eq : (s t : Text) → s ≡ t → text_eq s t ≡ true
eq→text_eq s t h = rw h (text_eq_refl t)

pub text_eq_iff : (s t : Text) → (text_eq s t ≡ true) ↔ (s ≡ t)
text_eq_iff s t = (text_eq→eq s t, eq→text_eq s t)

pub ends_with_self : (s : Text) → ends_with s s ≡ true
unfolding ends_with
ends_with_self [] = refl
ends_with_self (a ∷ s) = rw (text_eq_refl (a ∷ s))

pub ends_with-append : (p s : Text) → ends_with (p ++ s) s ≡ true
unfolding ends_with
ends_with-append [] s = ends_with_self s
ends_with-append (a ∷ p) s = ground (arith, ends_with-append p s)

pub ends_with_inv : (s t : Text) → ends_with s t ≡ true → (p : Text) × (s ≡ p ++ t)
unfolding ends_with
ends_with_inv [] t h = ([], text_eq→eq [] t h)
ends_with_inv (a ∷ s) t h = elim (or_inv _ _ h) [
  | inl e ↦ ([], text_eq→eq (a ∷ s) t e)
  | inr e ↦ let (p, q) = ends_with_inv s t e in (a ∷ p, ap (λ u. a ∷ u) q)
]
