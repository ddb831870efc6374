-- ===== src/Topic/Covers.antt =====
-- The filters that cover one topic: what their specificity tells of them. `covers` is the reading of
-- a filter in the MQTT standard, segment by segment; the broker library's `matches` is assumed to
-- accept nothing else.
use rosetta_mq.Prelude.{
  ℕ, ◌≡◌, refl, ap, ap₂, sym, ◌∙◌, subst, All, ◌⊎◌, inl, inr, Bool, true, false, ◌&&◌, ◌||◌, List,
  [], ◌∷◌, ◌++◌, Ordering, arith,
}
use rosetta_mq.Text.{Text, text_eq, contains, split}
use rosetta_mq.Text.Affix.{text_eq→eq}
use rosetta_mq.Topic.{slash, hash, plus, lex_cmp}
use rosetta_mq.Topic.Segments.{IsLiteral, Ranked, stop, multi, single, literal, literal-ne}

-- The segments of the filter, then those of the topic. `#` also covers the level above it.
unfoldable pub covers : List Text → List Text → Bool
unfolding text_eq
covers [] [] = true
covers [] (_ ∷ _) = false
covers (f ∷ fs) [] = text_eq f (hash ∷ [])
covers (f ∷ fs) (t ∷ ts) =
    text_eq f (hash ∷ []) || ((text_eq f (plus ∷ []) || text_eq f t) && covers fs ts)

-- What is assumed of `rumqttc::mqttbytes::matches`.
abbrev pub OnlyCovers : (Text → Text → Bool) → Type 0
OnlyCovers matches =
    (topic filter : Text)
    → matches topic filter ≡ true
    → covers (split slash filter) (split slash topic) ≡ true

covers-plus :
    (fs ts : List Text)
    → covers ((plus ∷ []) ∷ fs) ts ≡ true
    → (t : Text) × (us : List Text) × (ts ≡ t ∷ us) × (covers fs us ≡ true)
unfolding covers
covers-plus fs [] h = cc
covers-plus fs (t ∷ ts) h = (t, ts, refl, h)

covers-literal :
    (p : Text) (fs ts : List Text)
    → IsLiteral p
    → covers (p ∷ fs) ts ≡ true
    → (us : List Text) × (ts ≡ p ∷ us) × (covers fs us ≡ true)
covers-literal p fs [] l h = unfold covers in ground (arith, literal-ne p hash l.no_hash)
covers-literal p fs (t ∷ ts) l h = (ts, ap (λ u. u ∷ ts) (sym (text_eq→eq p t e.0)), e.1)
  where
    e : (text_eq p t ≡ true) × (covers fs ts ≡ true)
    e = unfold covers in ground (arith, literal-ne p hash l.no_hash, literal-ne p plus l.no_plus)

tail_eq : {t u : Text} {ts us : List Text} → t ∷ ts ≡ u ∷ us → (t ≡ u) × (ts ≡ us)
tail_eq h = ground arith

-- Two valid filters that cover one topic and have one vector are one filter.
pub covers_unique :
    {fs gs : List Text} {rs qs : List ℕ} (ts : List Text)
    → Ranked fs rs
    → Ranked gs qs
    → covers fs ts ≡ true
    → covers gs ts ≡ true
    → rs ≡ qs
    → fs ≡ gs
covers_unique ts stop stop h k e = refl
covers_unique ts stop multi h k e = cc
covers_unique ts stop (single w) h k e = cc
covers_unique ts stop (literal m w) h k e = cc
covers_unique ts multi stop h k e = cc
covers_unique ts multi multi h k e = refl
covers_unique ts multi (single w) h k e = absurd (ground arith)
covers_unique ts multi (literal m w) h k e = absurd (ground arith)
covers_unique ts (single v) stop h k e = cc
covers_unique ts (single v) multi h k e = absurd (ground arith)
covers_unique ts (single {ps = ps} v) (single {ps = qs} w) h k e =
    let (t, us, a, b) = covers-plus ps ts h in
    let (u, vs, c, d) = covers-plus qs ts k in
    let same : us ≡ vs = (tail_eq (sym a ∙ c)).1 in
    ap (λ x. (plus ∷ []) ∷ x) (covers_unique us v w b (rw same d) (ground arith))
covers_unique ts (single v) (literal m w) h k e = absurd (ground arith)
covers_unique ts (literal l v) stop h k e = cc
covers_unique ts (literal l v) multi h k e = absurd (ground arith)
covers_unique ts (literal l v) (single w) h k e = absurd (ground arith)
covers_unique ts (literal {p = p} {ps = ps} l v) (literal {p = q} {ps = qs} m w) h k e =
    let (us, a, b) = covers-literal p ps ts l h in
    let (vs, c, d) = covers-literal q qs ts m k in
    let (same_head, same) = tail_eq (sym a ∙ c) in
    ap₂ (λ x y. x ∷ y) same_head (covers_unique us v w b (rw same d) (ground arith))

-- The rank of a filter with no wildcard.
abbrev pub twos : List Text → List ℕ
twos [] = []
twos (_ ∷ ts) = 2 ∷ twos ts

abbrev Placed : List Text → List ℕ → List Text → Type 0
Placed fs rs ts = (fs ≡ ts) ⊎ (fs ≡ ts ++ (hash ∷ []) ∷ []) ⊎ (lex_cmp rs (twos ts) ≡ Ordering.lt)

Placed-cons :
    (p : Text) (fs : List Text) (rs : List ℕ) (ts : List Text)
    → Placed fs rs ts
    → Placed (p ∷ fs) (2 ∷ rs) (p ∷ ts)
unfolding lex_cmp
Placed-cons p fs rs ts (inl e) = inl (ap (λ x. p ∷ x) e)
Placed-cons p fs rs ts (inr (inl e)) = inr (inl (ap (λ x. p ∷ x) e))
Placed-cons p fs rs ts (inr (inr e)) = inr (inr e)

-- Of the valid filters that cover a topic, all but the topic itself and the topic with a last `#`
-- come below the filter that is the topic.
pub covers_exact :
    {fs : List Text} {rs : List ℕ} (ts : List Text)
    → Ranked fs rs
    → covers fs ts ≡ true
    → (fs ≡ ts) ⊎ (fs ≡ ts ++ (hash ∷ []) ∷ []) ⊎ (lex_cmp rs (twos ts) ≡ Ordering.lt)
covers_exact [] stop h = inl refl
covers_exact (t ∷ ts) stop h = unfold covers in cc
covers_exact [] multi h = inr (inl refl)
covers_exact (t ∷ ts) multi h = inr (inr (unfold lex_cmp in refl))
covers_exact ts (single {ps = ps} v) h =
    let (t, us, a, b) = covers-plus ps ts h in inr (inr (rw a (unfold lex_cmp in refl)))
covers_exact ts (literal {p = p} {ps = ps} l v) h =
    let (us, a, b) = covers-literal p ps ts l h in
    rw a (Placed-cons p ps _ us (covers_exact us v b))

-- A filter with one more `#` comes above.
pub lex_cmp-hash : (ts : List Text) → lex_cmp (twos ts ++ 0 ∷ []) (twos ts) ≡ Ordering.gt
unfolding lex_cmp
lex_cmp-hash [] = refl
lex_cmp-hash (t ∷ ts) = rw (lex_cmp-hash ts)

not-IsLiteral : (c : ℕ) → (c ≡ hash) ⊎ (c ≡ plus) → ¬ IsLiteral (c ∷ [])
unfolding contains
not-IsLiteral c h l = ground (arith, l.no_hash, l.no_plus)

pub Ranked-twos : {ts : List Text} {rs : List ℕ} → Ranked ts rs → All IsLiteral ts → rs ≡ twos ts
Ranked-twos stop l = refl
Ranked-twos multi l = absurd (not-IsLiteral hash (inl refl) l.0)
Ranked-twos (single v) l = absurd (not-IsLiteral plus (inr refl) l.0)
Ranked-twos (literal m v) l = ap (λ x. 2 ∷ x) (Ranked-twos v l.1)

pub Ranked-hash :
    (ts : List Text) {ps : List Text} {rs : List ℕ}
    → Ranked ps rs
    → ps ≡ ts ++ (hash ∷ []) ∷ []
    → All IsLiteral ts
    → rs ≡ twos ts ++ 0 ∷ []
Ranked-hash [] stop e l = cc
Ranked-hash [] multi e l = refl
Ranked-hash [] (single v) e l = absurd (ground arith)
Ranked-hash [] (literal m v) e l =
    absurd (not-IsLiteral hash (inl refl) (subst IsLiteral (tail_eq e).0 m))
Ranked-hash (t ∷ ts) stop e l = cc
Ranked-hash (t ∷ ts) multi e l =
    absurd (not-IsLiteral hash (inl refl) (subst IsLiteral (sym (tail_eq e).0) l.0))
Ranked-hash (t ∷ ts) (single v) e l =
    absurd (not-IsLiteral plus (inr refl) (subst IsLiteral (sym (tail_eq e).0) l.0))
Ranked-hash (t ∷ ts) (literal m v) e l = ap (λ x. 2 ∷ x) (Ranked-hash ts v (tail_eq e).1 l.1)
