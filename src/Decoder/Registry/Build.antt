-- ===== src/Decoder/Registry/Build.antt =====
-- `DecoderRegistryBuilder` of src/decoder/registry.rs: the entries that `register` has added.
use rosetta_mq.Prelude.{
  ◌≡◌, refl, ◌≢◌, sym, subst, ◌↔◌, inl, inr, true, false, List, [], ◌∷◌, ◌++◌, ok, err, any,
  Bool-cases, arith, In, here, there, All, All-at, All-append, or_inv,
}
use rosetta_mq.Text.{Text}
use rosetta_mq.Text.Affix.{text_eq→eq, eq→text_eq}
use rosetta_mq.Topic.{TopicFilter, parse}
use rosetta_mq.Topic.Parse.{parse-raw}
use rosetta_mq.Decoder.Registry.{
  RegistryError, duplicate_filter, RegistryEntry, DecoderRegistryBuilder, has_filter, new, register,
}

module _ {D : Type 0} where
  -- The filter of the entry is what its text parses to.
  abbrev pub IsParsed : RegistryEntry D → Type 0
  IsParsed e = parse e.filter.raw ≡ ok e.filter

  abbrev pub Differs : RegistryEntry D → RegistryEntry D → Type 0
  Differs e f = e.filter.raw ≢ f.filter.raw

  abbrev pub Distinct : List (RegistryEntry D) → Type 0
  Distinct [] = Unit
  Distinct (e ∷ es) = All (Differs e) es × Distinct es

pub record IsWellFormed {D : Type 0} (entries : List (RegistryEntry D)) : Type 0 where
  pub parsed : All IsParsed entries
  pub distinct : Distinct entries

module _ {D : Type 0} where
  any-has_filter :
      (filter : TopicFilter) (es : List (RegistryEntry D))
      → any (has_filter filter) es ≡ true
      → (e : RegistryEntry D) × In e es × (e.filter.raw ≡ filter.raw)
  any-has_filter filter [] h = cc
  any-has_filter filter (e ∷ es) h = elim (or_inv _ _ h) [
    | inl p ↦ (e, here, text_eq→eq _ _ p)
    | inr p ↦ let (d, m, q) = any-has_filter filter es p in (d, there m, q)
  ]

  has_filter-any :
      (filter : TopicFilter) {e : RegistryEntry D} (es : List (RegistryEntry D))
      → In e es
      → e.filter.raw ≡ filter.raw
      → any (has_filter filter) es ≡ true
  has_filter-any filter (e ∷ es) here p = rw (eq→text_eq _ _ p)
  has_filter-any filter (x ∷ es) (there m) p = ground (arith, has_filter-any filter es m p)
  has_filter-any filter [] m p = elim m [ ]

  Distinct-concat :
      (es : List (RegistryEntry D)) (f : RegistryEntry D)
      → Distinct es
      → any (has_filter f.filter) es ≡ false
      → Distinct (es ++ f ∷ [])
  Distinct-concat [] f d h = (tt, tt)
  Distinct-concat (e ∷ es) f d h = (
    All-append (Differs e) es (f ∷ []) d.0
        ((λ p. ground (arith, eq→text_eq e.filter.raw f.filter.raw p)), tt),
    Distinct-concat es f d.1 (ground arith),
  )

  -- Of distinct entries, two with one text are one entry.
  pub Distinct-unique :
      {e f : RegistryEntry D} (es : List (RegistryEntry D))
      → Distinct es
      → In e es
      → In f es
      → e.filter.raw ≡ f.filter.raw
      → e ≡ f
  Distinct-unique [] d m n p = elim m [ ]
  Distinct-unique (x ∷ es) d here here p = refl
  Distinct-unique (x ∷ es) d here (there n) p = absurd (All-at (Differs x) es d.0 n p)
  Distinct-unique (x ∷ es) d (there m) here p = absurd (All-at (Differs x) es d.0 m (sym p))
  Distinct-unique (x ∷ es) d (there m) (there n) p = Distinct-unique es d.1 m n p

  pub new-IsWellFormed : IsWellFormed (new {D = D}).entries
  unfolding new
  new-IsWellFormed = record { parsed = tt; distinct = tt }

  pub register_fresh :
      (builder : DecoderRegistryBuilder D) (filter : TopicFilter) (decoder : D)
      → any (has_filter filter) builder.entries ≡ false
      → register builder filter decoder
        ≡ ok (record {
          entries = builder.entries ++ (record { filter = filter; decoder = decoder }) ∷ [];
        })
  unfolding register
  register_fresh builder filter decoder h = rw h

  pub register_taken :
      (builder : DecoderRegistryBuilder D) (filter : TopicFilter) (decoder : D)
      → any (has_filter filter) builder.entries ≡ true
      → register builder filter decoder ≡ err (duplicate_filter filter.raw)
  unfolding register
  register_taken builder filter decoder h = rw h

  -- Registering a parsed filter keeps the entries parsed and distinct, and appends exactly the new
  -- entry.
  pub register-IsWellFormed :
      (builder builder' : DecoderRegistryBuilder D) (raw : Text) (filter : TopicFilter)
      (decoder : D)
      → IsWellFormed builder.entries
      → parse raw ≡ ok filter
      → register builder filter decoder ≡ ok builder'
      → IsWellFormed builder'.entries
        × (builder'.entries
            ≡ builder.entries ++ (record { filter = filter; decoder = decoder }) ∷ [])
  register-IsWellFormed builder builder' raw filter decoder w p h =
      elim (Bool-cases (any (has_filter filter) builder.entries)) [
        | inl taken ↦ cc (register_taken builder filter decoder taken)
        | inr fresh ↦
            let e : builder'.entries
                ≡ builder.entries ++ (record { filter = filter; decoder = decoder }) ∷ [] =
              ground (arith, register_fresh builder filter decoder fresh) in
            (
              rw e (record {
                parsed =
                    All-append IsParsed builder.entries _ w.parsed
                      (subst (λ t. parse t ≡ ok filter) (sym (parse-raw raw filter p)) p, tt);
                distinct = Distinct-concat builder.entries _ w.distinct fresh;
              }),
              e,
            )
      ]

  -- Registering fails exactly if an entry has the same text, and the error names that text.
  pub register-err_iff :
      (builder : DecoderRegistryBuilder D) (filter : TopicFilter) (decoder : D) (x : RegistryError)
      → (register builder filter decoder ≡ err x) ↔ (
          (x ≡ duplicate_filter filter.raw)
          × ((e : RegistryEntry D) × In e builder.entries × (e.filter.raw ≡ filter.raw)))
  register-err_iff builder filter decoder x = (forth, λ h. back h.0 h.1.1 h.1.2)
    where
      forth :
          register builder filter decoder ≡ err x
          → (x ≡ duplicate_filter filter.raw)
            × ((e : RegistryEntry D) × In e builder.entries × (e.filter.raw ≡ filter.raw))
      forth h = elim (Bool-cases (any (has_filter filter) builder.entries)) [
        | inl taken ↦ (
          ground (arith, register_taken builder filter decoder taken),
          any-has_filter filter builder.entries taken,
        )
        | inr fresh ↦ cc (register_fresh builder filter decoder fresh)
      ]

      back :
          x ≡ duplicate_filter filter.raw
          → {e : RegistryEntry D} → In e builder.entries
          → e.filter.raw ≡ filter.raw
          → register builder filter decoder ≡ err x
      back p m q =
          rw (p, register_taken builder filter decoder (has_filter-any filter builder.entries m q))
