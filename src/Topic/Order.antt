-- ===== src/Topic/Order.antt =====
-- `Ord for TopicFilter` of src/topic.rs.
use rosetta_mq.Prelude.{ℕ, ◌≡◌, refl, ◌≢◌, List, [], ◌∷◌, compare, Ordering, arith}
use rosetta_mq.Topic.{TopicFilter, then_cmp, lex_cmp, cmp}

abbrev pub flip : Ordering → Ordering
flip Ordering.lt = Ordering.gt
flip Ordering.eq = Ordering.eq
flip Ordering.gt = Ordering.lt

compare-flip : (a b : ℕ) → compare b a ≡ flip (compare a b)
compare-flip a b = ground arith

then_cmp-flip : (a b : Ordering) → then_cmp (flip a) (flip b) ≡ flip (then_cmp a b)
then_cmp-flip Ordering.lt b = refl
then_cmp-flip Ordering.eq b = refl
then_cmp-flip Ordering.gt b = refl

pub lex_cmp-flip : (xs ys : List ℕ) → lex_cmp ys xs ≡ flip (lex_cmp xs ys)
unfolding lex_cmp
lex_cmp-flip [] [] = refl
lex_cmp-flip [] (y ∷ ys) = refl
lex_cmp-flip (x ∷ xs) [] = refl
lex_cmp-flip (x ∷ xs) (y ∷ ys) =
    rw (compare-flip x y, lex_cmp-flip xs ys) (then_cmp-flip (compare x y) (lex_cmp xs ys))

pub lex_cmp_refl : (xs : List ℕ) → lex_cmp xs xs ≡ Ordering.eq
unfolding lex_cmp
lex_cmp_refl [] = refl
lex_cmp_refl (x ∷ xs) = ground (arith, lex_cmp_refl xs)

pub lex_cmp-eq : (xs ys : List ℕ) → lex_cmp xs ys ≡ Ordering.eq → xs ≡ ys
unfolding lex_cmp
lex_cmp-eq [] [] h = refl
lex_cmp-eq [] (y ∷ ys) h = cc
lex_cmp-eq (x ∷ xs) [] h = cc
lex_cmp-eq (x ∷ xs) (y ∷ ys) h = ground (arith, lex_cmp-eq xs ys)

-- `xs` does not come after `ys`, and `ys` not after `zs`.
pub lex_cmp_trans :
    (xs ys zs : List ℕ)
    → lex_cmp xs ys ≢ Ordering.gt
    → lex_cmp ys zs ≢ Ordering.gt
    → lex_cmp xs zs ≢ Ordering.gt
unfolding lex_cmp
lex_cmp_trans [] ys [] h k e = cc
lex_cmp_trans [] ys (z ∷ zs) h k e = cc
lex_cmp_trans (x ∷ xs) [] zs h k e = h refl
lex_cmp_trans (x ∷ xs) (y ∷ ys) [] h k e = k refl
lex_cmp_trans (x ∷ xs) (y ∷ ys) (z ∷ zs) h k e = ground (arith, lex_cmp_trans xs ys zs)

-- Filters are ordered by their vectors alone: comparing the other way round flips the answer, equal
-- answers mean equal vectors, and the order is transitive.
pub record IsLinear : Type 0 where
  pub total : (f g : TopicFilter) → cmp g f ≡ flip (cmp f g)
  pub same : (f g : TopicFilter) → cmp f g ≡ Ordering.eq → f.specificity ≡ g.specificity
  pub trans :
      (f g h : TopicFilter) → cmp f g ≢ Ordering.gt → cmp g h ≢ Ordering.gt → cmp f h ≢ Ordering.gt

pub cmp-IsLinear : IsLinear
unfolding cmp
cmp-IsLinear = record {
  total = λ f g. lex_cmp-flip f.specificity g.specificity;
  same = λ f g. lex_cmp-eq f.specificity g.specificity;
  trans = λ f g h. lex_cmp_trans f.specificity g.specificity h.specificity;
}
