-- ===== src/Decoder/Utf8/Sound.antt =====
-- The check of UTF-8 behind src/decoder/utf8.rs: what it accepts.
use rosetta_mq.Prelude.{
  ℕ, zero, suc, ◌+◌, ◌-◌, ◌*◌, ◌≤◌, ◌<◌, ◌≡◌, refl, ap, ap₂, sym, ◌∙◌, Option, Result-cases,
  length-append, >>=-eq-ok, ok_inj, ◌⊎◌, inl, inr, List, [], ◌∷◌, ◌++◌, length, drop, ok, err,
  arith, All,
}
use rosetta_mq.Decoder.Utf8.{char_width, validate, from_utf8}
use rosetta_mq.Decoder.Utf8.Encode.{
  encode, IsScalar, encode_all, encode-1, encode-2, encode-3, encode-4, encode-IsHead,
  encode_all-cons, validate-width,
}

abbrev IsCont : ℕ → Type 0
IsCont b = (0x80 ≤ b) × (b < 0xc0)

shape0 : (a w : ℕ) → char_width a [] ≡ ok w → (w ≡ 1) × (a < 0x80)
unfolding char_width
shape0 a w h = ground arith

abbrev Two : ℕ → ℕ → Type 0
Two a b = (0xc2 ≤ a) × (a < 0xe0) × IsCont b

abbrev Three : ℕ → ℕ → ℕ → Type 0
Three a b c =
    (0xe0 ≤ a)
    × (a < 0xf0)
    × IsCont b
    × IsCont c
    × (0xe080 + 0x20 ≤ a * 256 + b)
    × ((a < 0xed) ⊎ (b < 0xa0) ⊎ (0xee ≤ a))

abbrev Four : ℕ → ℕ → ℕ → ℕ → Type 0
Four a b c d =
    (0xf0 ≤ a)
    × (a < 0xf5)
    × IsCont b
    × IsCont c
    × IsCont d
    × (0xf090 ≤ a * 256 + b)
    × (a * 256 + b < 0xf490)

shape1 : (a b w : ℕ) → char_width a (b ∷ []) ≡ ok w → ((w ≡ 1) × (a < 0x80)) ⊎ ((w ≡ 2) × Two a b)
unfolding char_width
shape1 a b w h = ground arith

shape2 :
    (a b c w : ℕ)
    → char_width a (b ∷ c ∷ []) ≡ ok w
    → ((w ≡ 1) × (a < 0x80)) ⊎ ((w ≡ 2) × Two a b) ⊎ ((w ≡ 3) × Three a b c)
unfolding char_width
shape2 a b c w h = ground arith

shape3 :
    (a b c d w : ℕ) (s : List ℕ)
    → char_width a (b ∷ c ∷ d ∷ s) ≡ ok w
    → ((w ≡ 1) × (a < 0x80))
      ⊎ ((w ≡ 2) × Two a b)
      ⊎ ((w ≡ 3) × Three a b c)
      ⊎ ((w ≡ 4) × Four a b c d)
unfolding char_width
shape3 a b c d w s h = ground arith

-- The text begins with the encoding of a code point of the width that was found.
record Decodes (a w : ℕ) (s : List ℕ) : Type 0 where
  code : ℕ
  scalar : IsScalar code
  split : a ∷ s ≡ encode code ++ drop (w - 1) s

decodes1 : (a w : ℕ) (s : List ℕ) → (w ≡ 1) × (a < 0x80) → Decodes a w s
decodes1 a w s (e, h) = record {
  code = a;
  scalar = inl (omega arith);
  split = rw (e, encode-1 a h) refl;
}

decodes2 : (a b w : ℕ) (s : List ℕ) → (w ≡ 2) × Two a b → Decodes a w (b ∷ s)
decodes2 a b w s (e, h) = record {
  code = (a - 0xc0) * 64 + (b - 0x80);
  scalar = inl (omega arith);
  split =
      rw (e, encode-2 ((a - 0xc0) * 64 + (b - 0x80)) (omega arith) (omega arith))
        (ap₂ (λ x y. x ∷ y ∷ s) (omega arith) (omega arith));
}

decodes3 : (a b c w : ℕ) (s : List ℕ) → (w ≡ 3) × Three a b c → Decodes a w (b ∷ c ∷ s)
decodes3 a b c w s (e, h) = record {
  code = (a - 0xe0) * 4096 + (b - 0x80) * 64 + (c - 0x80);
  scalar = ground arith;
  split =
      rw
        (e, encode-3 ((a - 0xe0) * 4096 + (b - 0x80) * 64 + (c - 0x80)) (omega arith) (omega arith))
        (same3 (omega arith) (omega arith) (omega arith));
}
  where
    same3 : {x y z : ℕ} → a ≡ x → b ≡ y → c ≡ z → a ∷ b ∷ c ∷ s ≡ x ∷ y ∷ z ∷ s
    same3 p q r = cc

decodes4 : (a b c d w : ℕ) (s : List ℕ) → (w ≡ 4) × Four a b c d → Decodes a w (b ∷ c ∷ d ∷ s)
decodes4 a b c d w s (e, h) = record {
  code = (a - 0xf0) * 262144 + (b - 0x80) * 4096 + (c - 0x80) * 64 + (d - 0x80);
  scalar = inr (omega arith, omega arith);
  split =
      rw
        (
          e,
          encode-4 ((a - 0xf0) * 262144 + (b - 0x80) * 4096 + (c - 0x80) * 64 + (d - 0x80))
              (omega arith),
        )
        (same4 (omega arith) (omega arith) (omega arith) (omega arith));
}
  where
    same4 : {x y z u : ℕ} → a ≡ x → b ≡ y → c ≡ z → d ≡ u → a ∷ b ∷ c ∷ d ∷ s ≡ x ∷ y ∷ z ∷ u ∷ s
    same4 p q r t = cc

decodes : (a w : ℕ) (s : List ℕ) → char_width a s ≡ ok w → Decodes a w s
decodes a w [] h = decodes1 a w [] (shape0 a w h)
decodes a w (b ∷ []) h = elim (shape1 a b w h) [
  | inl x ↦ decodes1 a w (b ∷ []) x
  | inr x ↦ decodes2 a b w [] x
]
decodes a w (b ∷ c ∷ []) h = elim (shape2 a b c w h) [
  | inl x ↦ decodes1 a w (b ∷ c ∷ []) x
  | inr (inl x) ↦ decodes2 a b w (c ∷ []) x
  | inr (inr x) ↦ decodes3 a b c w [] x
]
decodes a w (b ∷ c ∷ d ∷ s) h = elim (shape3 a b c d w s h) [
  | inl x ↦ decodes1 a w (b ∷ c ∷ d ∷ s) x
  | inr (inl x) ↦ decodes2 a b w (c ∷ d ∷ s) x
  | inr (inr (inl x)) ↦ decodes3 a b c w (d ∷ s) x
  | inr (inr (inr x)) ↦ decodes4 a b c d w s x
]

validate-err :
    (fuel pos a : ℕ) (s : List ℕ) (len : Option ℕ)
    → char_width a s ≡ err len
    → validate (suc fuel) pos (a ∷ s) ≡ err (record { valid_up_to = pos; error_len = len })
unfolding validate
validate-err fuel pos a s len h = ground arith

-- The code points that a text encodes.
pub record IsText (bytes : List ℕ) : Type 0 where
  pub code_points : List ℕ
  pub scalars : All IsScalar code_points
  pub encoded : encode_all code_points ≡ bytes

validate-IsText :
    (fuel pos : ℕ) (bytes : List ℕ)
    → length bytes ≤ fuel
    → validate fuel pos bytes ≡ ok tt
    → IsText bytes
validate-IsText fuel pos [] n h = record {
  code_points = [];
  scalars = tt;
  encoded = unfold encode_all in refl;
}
validate-IsText zero pos (a ∷ s) n h = absurd (omega arith)
validate-IsText (suc fuel) pos (a ∷ s) n h = elim (Result-cases (char_width a s)) [
  | inr (len, e) ↦ cc (validate-err fuel pos a s len e, h)
  | inl (w, e) ↦
      let d = decodes a w s e in
      let t =
        validate-IsText fuel (pos + w) (drop (w - 1) s)
          (omega (
            arith,
            ap (length) d.split,
            length-append (encode d.code) (drop (w - 1) s),
            ap (length) (encode-IsHead d.code d.scalar).split,
          ))
          (sym (validate-width fuel pos a w s e) ∙ h) in
      record {
        code_points = d.code ∷ t.code_points;
        scalars = (d.scalar, t.scalars);
        encoded =
            encode_all-cons d.code t.code_points
            ∙ ap (λ x. encode d.code ++ x) t.encoded
            ∙ sym d.split;
      }
]

from_utf8-validate :
    (bytes text : List ℕ)
    → from_utf8 bytes ≡ ok text
    → (validate (length bytes) 0 bytes ≡ ok tt) × (bytes ≡ text)
unfolding from_utf8
from_utf8-validate bytes text h =
    let (_, e, same) = >>=-eq-ok (validate (length bytes) 0 bytes) _ h in (e, ok_inj same)

-- A text that the check accepts is given back unchanged, and is the encoding of a sequence of code
-- points that has no surrogate and ends at 0x10ffff.
pub from_utf8-IsText :
    (bytes text : List ℕ) → from_utf8 bytes ≡ ok text → (text ≡ bytes) × IsText bytes
from_utf8-IsText bytes text h =
    let (e, same) = from_utf8-validate bytes text h in
    (sym same, validate-IsText (length bytes) 0 bytes (omega arith) e)
