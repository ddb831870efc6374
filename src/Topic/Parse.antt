-- ===== src/Topic/Parse.antt =====
-- `TopicFilter::parse` of src/topic.rs: what it accepts, and which error it returns otherwise.
use rosetta_mq.Prelude.{
  ℕ, ◌≡◌, refl, ◌≢◌, ap, sym, ◌∙◌, subst, ◌↔◌, ◌⊎◌, inl, inr, List, [], ◌∷◌, Result, ok, err, ◌>>=◌,
  >>=-eq-ok, arith,
}
use rosetta_mq.Text.{Text, split}
use rosetta_mq.Topic.{TopicError, empty, TopicFilter, slash, hash, plus, parse}
use rosetta_mq.Topic.Segments.{
  IsLiteral, Ranked, stop, multi, single, literal, Fault, early_hash, mixed, past_single,
  past_literal, Segment, hash_seg, plus_seg, mixed_seg, literal_seg, segment, ranks, rank_parts_lem,
  ranks-hash, ranks-plus, ranks-mixed, ranks-literal,
}

-- The verdict on a list of segments: ranks, or the error of the first segment at fault.
pub data Verdict (raw : Text) (ps : List Text) : Result (List ℕ) TopicError → Type 0 where
  fine : {rs : List ℕ} → Ranked ps rs → Verdict raw ps (ok rs)
  bad : {e : TopicError} → Fault raw ps e → Verdict raw ps (err e)

module _ (raw : Text) where
  after_plus :
      {ps : List Text} {r : Result (List ℕ) TopicError}
      → Verdict raw ps r
      → Verdict raw ((plus ∷ []) ∷ ps) (do rs ← r; ok (1 ∷ rs))
  after_plus (fine v) = fine (single v)
  after_plus (bad f) = bad (past_single f)

  after_literal :
      {p : Text} {ps : List Text} {r : Result (List ℕ) TopicError}
      → IsLiteral p
      → Verdict raw ps r
      → Verdict raw (p ∷ ps) (do rs ← r; ok (2 ∷ rs))
  after_literal l (fine v) = fine (literal l v)
  after_literal l (bad f) = bad (past_literal l f)

  at_hash : (ps : List Text) → Verdict raw ((hash ∷ []) ∷ ps) (ranks raw ((hash ∷ []) ∷ ps))
  at_hash [] = rw (ranks-hash raw []) (fine multi)
  at_hash (p ∷ ps) = rw (ranks-hash raw (p ∷ ps)) (bad early_hash)

  ranks-Verdict : (ps : List Text) → Verdict raw ps (ranks raw ps)
  ranks-Verdict [] = unfold ranks in fine stop
  ranks-Verdict (p ∷ ps) = by_segment (ranks-Verdict ps) (segment p)
    where
      by_segment :
          Verdict raw ps (ranks raw ps) → Segment p → Verdict raw (p ∷ ps) (ranks raw (p ∷ ps))
      by_segment v (hash_seg e) = rw e (at_hash ps)
      by_segment v (plus_seg e) = rw e (rw (ranks-plus raw ps) (after_plus v))
      by_segment v (mixed_seg h k l) = rw (ranks-mixed raw p ps h k l) (bad (mixed h k l))
      by_segment v (literal_seg h k l) = rw (ranks-literal raw p ps l) (after_literal l v)

  Ranked-ranks : {ps : List Text} {rs : List ℕ} → Ranked ps rs → ranks raw ps ≡ ok rs
  Ranked-ranks stop = unfold ranks in refl
  Ranked-ranks multi = ranks-hash raw []
  Ranked-ranks (single {ps = ps} v) = rw (ranks-plus raw ps, Ranked-ranks v)
  Ranked-ranks (literal {p = p} {ps = ps} l v) = rw (ranks-literal raw p ps l, Ranked-ranks v)

  Fault-ranks : {ps : List Text} {e : TopicError} → Fault raw ps e → ranks raw ps ≡ err e
  Fault-ranks (early_hash {p = p} {ps = ps}) = ranks-hash raw (p ∷ ps)
  Fault-ranks (mixed {p = p} {ps = ps} h k l) = ranks-mixed raw p ps h k l
  Fault-ranks (past_single {ps = ps} f) = rw (ranks-plus raw ps, Fault-ranks f)
  Fault-ranks (past_literal {p = p} {ps = ps} l f) = rw (ranks-literal raw p ps l, Fault-ranks f)

Verdict-ok :
    {raw : Text} {ps : List Text} {r : Result (List ℕ) TopicError} {rs : List ℕ}
    → Verdict raw ps r
    → r ≡ ok rs
    → Ranked ps rs
Verdict-ok {ps = ps} (fine {rs = qs} v) h = subst (Ranked ps) (cc) v
Verdict-ok (bad f) h = cc

Verdict-err :
    {raw : Text} {ps : List Text} {r : Result (List ℕ) TopicError} {e : TopicError}
    → Verdict raw ps r
    → r ≡ err e
    → Fault raw ps e
Verdict-err (fine v) h = cc
Verdict-err {raw = raw} {ps = ps} (bad f) h = subst (Fault raw ps) (cc) f

cons-ne-nil : (c : ℕ) (s : Text) → c ∷ s ≢ []
cons-ne-nil c s h = cc

-- The filter that `parse` builds from the ranks.
abbrev pub filter_of : Text → List ℕ → TopicFilter
filter_of raw rs = record { raw = raw; specificity = rs }

bind-err :
    (raw : Text) (r : Result (List ℕ) TopicError) {e : TopicError}
    → (do rs ← r; ok (filter_of raw rs)) ≡ err e
    → r ≡ err e
bind-err raw (ok rs) h = cc
bind-err raw (err e) h = ground arith

pub parse-nil : parse [] ≡ err empty
unfolding parse
parse-nil = refl

pub parse-ranks :
    (raw : Text)
    → raw ≢ []
    → parse raw ≡ (do rs ← ranks raw (split slash raw); ok (filter_of raw rs))
unfolding parse
parse-ranks [] h = absurd (h refl)
parse-ranks (c ∷ raw) h = rw rank_parts_lem

-- A text parses to a filter exactly when it is not empty and its segments between slashes are
-- literals, lone `+` signs and, at the end only, a lone `#`; the filter keeps the text and has the
-- rank of each segment.
pub parse-ok_iff :
    (raw : Text) (f : TopicFilter)
    → (parse raw ≡ ok f) ↔ ((raw ≢ []) × (f.raw ≡ raw) × Ranked (split slash raw) f.specificity)
parse-ok_iff raw f = (forth, λ h. back h.0 h.1 h.2)
  where
    forth : parse raw ≡ ok f → (raw ≢ []) × (f.raw ≡ raw) × Ranked (split slash raw) f.specificity
    forth h =
        let ne : raw ≢ [] = λ e. cc (parse-nil, ap parse e) in
        let (rs, a, b) =
          >>=-eq-ok (ranks raw (split slash raw)) (λ rs. ok (filter_of raw rs))
            (sym (parse-ranks raw ne) ∙ h) in
        (ne, ground arith, Verdict-ok (ranks-Verdict raw (split slash raw)) (ground arith))

    back : raw ≢ [] → f.raw ≡ raw → Ranked (split slash raw) f.specificity → parse raw ≡ ok f
    back ne e v = rw (parse-ranks raw ne, Ranked-ranks raw v) (ground arith)

-- A text is refused with an error exactly when it is empty and the error is `empty`, or it is not
-- and the error is that of its first segment at fault: `hash_not_last` for a lone `#` before the
-- end, `invalid_wildcard_segment` for a segment that mixes a wildcard with other characters.
pub parse-err_iff :
    (raw : Text) (e : TopicError)
    → (parse raw ≡ err e)
      ↔ (((raw ≡ []) × (e ≡ empty)) ⊎ ((raw ≢ []) × Fault raw (split slash raw) e))
parse-err_iff [] e = (λ h. inl (refl, cc (parse-nil)), λ h. rw parse-nil (ground arith))
parse-err_iff (c ∷ raw) e = (
  λ h. inr (
    cons-ne-nil c raw,
    Verdict-err (ranks-Verdict (c ∷ raw) (split slash (c ∷ raw)))
        (bind-err _ _ (sym (parse-ranks (c ∷ raw) (cons-ne-nil c raw)) ∙ h)),
  ),
  back,
)
  where
    back :
        (((c ∷ raw) ≡ []) × (e ≡ empty))
          ⊎ ((c ∷ raw ≢ []) × Fault (c ∷ raw) (split slash (c ∷ raw)) e)
        → parse (c ∷ raw) ≡ err e
    back (inl h) = absurd (cons-ne-nil c raw h.0)
    back (inr h) = rw (parse-ranks (c ∷ raw) h.0, Fault-ranks (c ∷ raw) h.1)

pub parse-raw : (raw : Text) (f : TopicFilter) → parse raw ≡ ok f → f.raw ≡ raw
parse-raw raw f h = ((parse-ok_iff raw f).0 h).1
