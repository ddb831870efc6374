-- ===== src/Text/Split.antt =====
-- `split` and `join` of texts.
use rosetta_mq.Prelude.{ℕ, ◌≡◌, refl, ◌≢◌, sym, ap, ◌∙◌, List, [], ◌∷◌, ◌++◌, arith}
use rosetta_mq.Text.{Text, grow, split, join}

pub split-ne-nil : (sep : ℕ) (s : Text) → split sep s ≢ []
unfolding split
split-ne-nil sep [] h = cc
split-ne-nil sep (c ∷ s) h = ground (arith, split-ne-nil sep s)

join-grow : (sep c : ℕ) (ps : List Text) → ps ≢ [] → join sep (grow c ps) ≡ c ∷ join sep ps
unfolding join
join-grow sep c [] h = absurd (h refl)
join-grow sep c (p ∷ []) h = refl
join-grow sep c (p ∷ q ∷ ps) h = refl

join-nil_cons : (sep : ℕ) (ps : List Text) → ps ≢ [] → join sep ([] ∷ ps) ≡ sep ∷ join sep ps
unfolding join
join-nil_cons sep [] h = absurd (h refl)
join-nil_cons sep (p ∷ ps) h = refl

pub join-split : (sep : ℕ) (s : Text) → join sep (split sep s) ≡ s
unfolding split
join-split sep [] = unfold join in refl
join-split sep (c ∷ s) = ground (
  arith,
  join-split sep s,
  split-ne-nil sep s,
  join-grow sep c (split sep s),
  join-nil_cons sep (split sep s),
)

pub split_injective : (sep : ℕ) (s t : Text) → split sep s ≡ split sep t → s ≡ t
split_injective sep s t h = sym (join-split sep s) ∙ ap (join sep) h ∙ join-split sep t

grow-append : (c : ℕ) (ps qs : List Text) → ps ≢ [] → grow c (ps ++ qs) ≡ grow c ps ++ qs
grow-append c [] qs h = absurd (h refl)
grow-append c (p ∷ ps) qs h = refl

pub split-append : (sep : ℕ) (s t : Text) → split sep (s ++ sep ∷ t) ≡ split sep s ++ split sep t
unfolding split
split-append sep [] t = ground arith
split-append sep (c ∷ s) t =
    ground
      (arith, split-append sep s t, split-ne-nil sep s, grow-append c (split sep s) (split sep t))
