-- ===== src/Topic/Segments.antt =====
-- The segments of a filter: which lists of them are valid, which segment is at fault, and the loop of
-- `TopicFilter::parse` as a recursion on the list.
use rosetta_mq.Prelude.{
  ℕ, suc, ◌+◌, ◌-◌, ◌≡◌, refl, ◌≢◌, ap, ◌∙◌, inl, inr, true, false, ◌||◌, List, [], ◌∷◌, ◌++◌,
  append_assoc, append-nil, Result, ok, err, ◌>>=◌, ◌==◌, ==_refl, Bool-cases, if◌then◌else◌,
  length, is_empty, arith,
}
use rosetta_mq.Text.{Text, text_eq, contains, split}
use rosetta_mq.Text.Affix.{text_eq→eq, eq→text_eq}
use rosetta_mq.Text.Split.{split-ne-nil}
use rosetta_mq.Topic.{
  TopicError, hash_not_last, invalid_wildcard_segment, slash, hash, plus, rank, rank_parts,
}

-- A segment with no wildcard character.
pub record IsLiteral (part : Text) : Type 0 where
  pub no_hash : contains part hash ≡ false
  pub no_plus : contains part plus ≡ false

-- The segments of a valid filter, with their ranks.
pub data Ranked : List Text → List ℕ → Type 0 where
  stop : Ranked [] []
  multi : Ranked ((hash ∷ []) ∷ []) (0 ∷ [])
  single : {ps : List Text} {rs : List ℕ} → Ranked ps rs → Ranked ((plus ∷ []) ∷ ps) (1 ∷ rs)
  literal :
      {p : Text} {ps : List Text} {rs : List ℕ}
      → IsLiteral p
      → Ranked ps rs
      → Ranked (p ∷ ps) (2 ∷ rs)

-- The first segment at fault, and the error that it causes; `raw` is the whole filter.
pub data Fault (raw : Text) : List Text → TopicError → Type 0 where
  early_hash : {p : Text} {ps : List Text} → Fault raw ((hash ∷ []) ∷ p ∷ ps) (hash_not_last raw)
  mixed :
      {p : Text} {ps : List Text}
      → p ≢ hash ∷ []
      → p ≢ plus ∷ []
      → ¬ IsLiteral p
      → Fault raw (p ∷ ps) (invalid_wildcard_segment p raw)
  past_single : {ps : List Text} {e : TopicError} → Fault raw ps e → Fault raw ((plus ∷ []) ∷ ps) e
  past_literal :
      {p : Text} {ps : List Text} {e : TopicError}
      → IsLiteral p
      → Fault raw ps e
      → Fault raw (p ∷ ps) e

-- The same as a computation: the first segment that is at fault decides the error.
unfoldable pub ranks : Text → List Text → Result (List ℕ) TopicError
ranks raw [] = ok []
ranks raw (p ∷ ps) =
    let rest = ranks raw ps in
    if text_eq p (hash ∷ [])
    then (if is_empty ps then ok (0 ∷ []) else err (hash_not_last raw))
    else if text_eq p (plus ∷ [])
    then (do rs ← rest; ok (1 ∷ rs))
    else if contains p hash || contains p plus
    then err (invalid_wildcard_segment p raw)
    else (do rs ← rest; ok (2 ∷ rs))

prepend : List ℕ → Result (List ℕ) TopicError → Result (List ℕ) TopicError
prepend acc r = do rs ← r; ok (acc ++ rs)

prepend-cons :
    (acc : List ℕ) (x : ℕ) (r : Result (List ℕ) TopicError)
    → prepend (acc ++ x ∷ []) r ≡ prepend acc (do rs ← r; ok (x ∷ rs))
unfolding prepend
prepend-cons acc x (ok rs) = rw append_assoc
prepend-cons acc x (err e) = refl

at_last : (i last : ℕ) (ps : List Text) → i + suc (length ps) ≡ suc last → (i == last) ≡ is_empty ps
at_last i last [] h = ground arith
at_last i last (p ∷ ps) h = ground arith

rank_parts-ranks :
    (raw : Text) (last i : ℕ) (ps : List Text) (acc : List ℕ)
    → i + length ps ≡ suc last
    → rank_parts raw last i ps acc ≡ prepend acc (ranks raw ps)
unfolding rank_parts rank ranks prepend
rank_parts-ranks raw last i [] acc h = unfold prepend in rw append-nil
rank_parts-ranks raw last i (p ∷ ps) acc h = ground (
  arith,
  at_last i last ps,
  prepend-cons acc 1 (ranks raw ps),
  prepend-cons acc 2 (ranks raw ps),
  rank_parts-ranks raw last (suc i) ps (acc ++ 1 ∷ []),
  rank_parts-ranks raw last (suc i) ps (acc ++ 2 ∷ []),
)

length_split : (raw : Text) → 0 + length (split slash raw) ≡ suc (length (split slash raw) - 1)
length_split raw = ground (arith, split-ne-nil slash raw)

prepend-nil : (r : Result (List ℕ) TopicError) → prepend [] r ≡ r
unfolding prepend
prepend-nil (ok rs) = refl
prepend-nil (err e) = refl

pub rank_parts_lem :
    (raw : Text)
    → rank_parts raw (length (split slash raw) - 1) 0 (split slash raw) []
      ≡ ranks raw (split slash raw)
rank_parts_lem raw =
    rank_parts-ranks raw (length (split slash raw) - 1) 0 (split slash raw) [] (length_split raw)
    ∙ prepend-nil (ranks raw (split slash raw))

text_ne : (s t : Text) → text_eq s t ≡ false → s ≢ t
text_ne s t h e = cc (eq→text_eq s t e)

eq_test : (s t : Text) → s ≢ t → text_eq s t ≡ false
eq_test s t h = elim (Bool-cases (text_eq s t)) [
  | inl e ↦ absurd (h (text_eq→eq s t e))
  | inr e ↦ e
]

contains_self : (c : ℕ) → contains (c ∷ []) c ≡ true
unfolding contains
contains_self c = rw (==_refl c)

pub literal-ne : (p : Text) (c : ℕ) → contains p c ≡ false → text_eq p (c ∷ []) ≡ false
literal-ne p c h =
    eq_test p _ (λ e. ground (arith, contains_self c, ap (λ (t : Text). contains t c) e))

-- What a segment is, as the tests of the loop find out.
pub data Segment (p : Text) : Type 0 where
  hash_seg : p ≡ hash ∷ [] → Segment p
  plus_seg : p ≡ plus ∷ [] → Segment p
  mixed_seg : p ≢ hash ∷ [] → p ≢ plus ∷ [] → ¬ IsLiteral p → Segment p
  literal_seg : p ≢ hash ∷ [] → p ≢ plus ∷ [] → IsLiteral p → Segment p

pub segment : (p : Text) → Segment p
segment p = elim (Bool-cases (text_eq p (hash ∷ []))) [
  | inl e ↦ hash_seg (text_eq→eq _ _ e)
  | inr h ↦ elim (Bool-cases (text_eq p (plus ∷ []))) [
    | inl e ↦ plus_seg (text_eq→eq _ _ e)
    | inr k ↦ elim (Bool-cases (contains p hash || contains p plus)) [
      | inl e ↦
          mixed_seg (text_ne p _ h) (text_ne p _ k) (λ l. ground (arith, l.no_hash, l.no_plus))
      | inr e ↦
          literal_seg (text_ne p _ h) (text_ne p _ k)
            (record { no_hash = ground arith; no_plus = ground arith })
    ]
  ]
]

mixed_test : (p : Text) → ¬ IsLiteral p → contains p hash || contains p plus ≡ true
mixed_test p h = elim (Bool-cases (contains p hash || contains p plus)) [
  | inl e ↦ e
  | inr e ↦ absurd (h (record { no_hash = ground arith; no_plus = ground arith }))
]

module _ (raw : Text) where
  pub ranks-hash :
      (ps : List Text)
      → ranks raw ((hash ∷ []) ∷ ps)
        ≡ (if is_empty ps then ok (0 ∷ []) else err (hash_not_last raw))
  unfolding ranks text_eq
  ranks-hash ps = refl

  pub ranks-plus :
      (ps : List Text) → ranks raw ((plus ∷ []) ∷ ps) ≡ (do rs ← ranks raw ps; ok (1 ∷ rs))
  unfolding ranks text_eq
  ranks-plus ps = refl

  pub ranks-mixed :
      (p : Text) (ps : List Text)
      → p ≢ hash ∷ []
      → p ≢ plus ∷ []
      → ¬ IsLiteral p
      → ranks raw (p ∷ ps) ≡ err (invalid_wildcard_segment p raw)
  unfolding ranks
  ranks-mixed p ps h k l = rw (eq_test p _ h, eq_test p _ k, mixed_test p l)

  pub ranks-literal :
      (p : Text) (ps : List Text)
      → IsLiteral p
      → ranks raw (p ∷ ps) ≡ (do rs ← ranks raw ps; ok (2 ∷ rs))
  unfolding ranks
  ranks-literal p ps l =
      rw (literal-ne p hash l.no_hash, literal-ne p plus l.no_plus, l.no_hash, l.no_plus)
