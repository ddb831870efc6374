-- ===== src/Decoder/Utf8/Encode.antt =====
-- The check of UTF-8 behind src/decoder/utf8.rs, and the encoding of code points.
use rosetta_mq.Prelude.{
  ℕ, zero, suc, ◌+◌, ◌-◌, ◌*◌, ◌/◌, ◌%◌, ◌≤◌, ◌<◌, ◌≡◌, refl, ap, ◌∙◌, ◌⊎◌, inl, inr, false, List,
  [], ◌∷◌, ◌++◌, length, drop, Result, ok, err, ltb, if◌then◌else◌, arith, ltb→lt, Bool-cases, All,
  length-append, ◌>>=◌,
}
use rosetta_mq.Decoder.Utf8.{Utf8Error, char_width, validate, from_utf8}

-- The encoding of a code point.
unfoldable pub encode : ℕ → List ℕ
encode c =
    if ltb c 0x80
    then c ∷ []
    else if ltb c 0x800
    then (0xc0 + c / 64) ∷ (0x80 + c % 64) ∷ []
    else if ltb c 0x10000
    then (0xe0 + c / 4096) ∷ (0x80 + c / 64 % 64) ∷ (0x80 + c % 64) ∷ []
    else (0xf0 + c / 262144) ∷ (0x80 + c / 4096 % 64) ∷ (0x80 + c / 64 % 64) ∷ (0x80 + c % 64) ∷ []

-- A code point that is no surrogate.
abbrev pub IsScalar : ℕ → Type 0
IsScalar c = (c < 0xd800) ⊎ ((0xe000 ≤ c) × (c < 0x110000))

-- The first byte of a character of one byte, and the bytes behind it.
ascii : (c : ℕ) (s : List ℕ) → c < 0x80 → char_width c s ≡ ok 1
unfolding char_width
ascii c s h = ground arith

two :
    (c : ℕ) (s : List ℕ)
    → 0x80 ≤ c
    → c < 0x800
    → char_width (0xc0 + c / 64) ((0x80 + c % 64) ∷ s) ≡ ok 2
unfolding char_width
two c s g h = ground arith

three :
    (a b d : ℕ) (s : List ℕ)
    → a < 16
    → b < 64
    → d < 64
    → 0x800 ≤ a * 4096 + b * 64 + d
    → IsScalar (a * 4096 + b * 64 + d)
    → char_width (0xe0 + a) ((0x80 + b) ∷ (0x80 + d) ∷ s) ≡ ok 3
unfolding char_width
three a b d s p q r g h = ground arith

four :
    (a b d e : ℕ) (s : List ℕ)
    → a < 8
    → b < 64
    → d < 64
    → e < 64
    → 0x10000 ≤ a * 262144 + b * 4096 + d * 64 + e
    → a * 262144 + b * 4096 + d * 64 + e < 0x110000
    → char_width (0xf0 + a) ((0x80 + b) ∷ (0x80 + d) ∷ (0x80 + e) ∷ s) ≡ ok 4
unfolding char_width
four a b d e s p q r t g h = ground arith

-- What the check finds at the head of a text: a first byte and those of the same character.
pub record IsHead (bytes : List ℕ) : Type 0 where
  pub lead : ℕ
  pub others : List ℕ
  pub split : bytes ≡ lead ∷ others
  pub width : (s : List ℕ) → char_width lead (others ++ s) ≡ ok (suc (length others))

pub encode-1 : (c : ℕ) → c < 0x80 → encode c ≡ c ∷ []
unfolding encode
encode-1 c h = ground arith

pub encode-2 : (c : ℕ) → 0x80 ≤ c → c < 0x800 → encode c ≡ (0xc0 + c / 64) ∷ (0x80 + c % 64) ∷ []
unfolding encode
encode-2 c g h = ground arith

pub encode-3 :
    (c : ℕ)
    → 0x800 ≤ c
    → c < 0x10000
    → encode c ≡ (0xe0 + c / 4096) ∷ (0x80 + c / 64 % 64) ∷ (0x80 + c % 64) ∷ []
unfolding encode
encode-3 c g h = ground arith

pub encode-4 :
    (c : ℕ)
    → 0x10000 ≤ c
    → encode c
      ≡ (0xf0 + c / 262144) ∷ (0x80 + c / 4096 % 64) ∷ (0x80 + c / 64 % 64) ∷ (0x80 + c % 64) ∷ []
unfolding encode
encode-4 c g = ground arith

digits3 : (c : ℕ) → c / 4096 * 4096 + c / 64 % 64 * 64 + c % 64 ≡ c
digits3 c = omega arith

digits4 : (c : ℕ) → c / 262144 * 262144 + c / 4096 % 64 * 4096 + c / 64 % 64 * 64 + c % 64 ≡ c
digits4 c = omega arith

pub encode-IsHead : (c : ℕ) → IsScalar c → IsHead (encode c)
encode-IsHead c h = elim (Bool-cases (ltb c 0x80)) [
  | inl e ↦ record {
    lead = c;
    others = [];
    split = encode-1 c (ltb→lt c 0x80 e);
    width = λ s. ascii c s (ltb→lt c 0x80 e);
  }
  | inr e ↦ elim (Bool-cases (ltb c 0x800)) [
    | inl f ↦ record {
      lead = 0xc0 + c / 64;
      others = (0x80 + c % 64) ∷ [];
      split = encode-2 c (ge e) (ltb→lt c 0x800 f);
      width = λ s. two c s (ge e) (ltb→lt c 0x800 f);
    }
    | inr f ↦ elim (Bool-cases (ltb c 0x10000)) [
      | inl g ↦ record {
        lead = 0xe0 + c / 4096;
        others = (0x80 + c / 64 % 64) ∷ (0x80 + c % 64) ∷ [];
        split = encode-3 c (ge f) (ltb→lt c 0x10000 g);
        width = λ s.
            three (c / 4096) (c / 64 % 64) (c % 64) s (omega (arith, ltb→lt c 0x10000 g))
              (omega arith) (omega arith) (rw (digits3 c) (ge f)) (rw (digits3 c) h);
      }
      | inr g ↦ record {
        lead = 0xf0 + c / 262144;
        others = (0x80 + c / 4096 % 64) ∷ (0x80 + c / 64 % 64) ∷ (0x80 + c % 64) ∷ [];
        split = encode-4 c (ge g);
        width = λ s.
            four (c / 262144) (c / 4096 % 64) (c / 64 % 64) (c % 64) s (omega (arith, below h))
              (omega arith) (omega arith) (omega arith) (rw (digits4 c) (ge g))
              (rw (digits4 c) (below h));
      }
    ]
  ]
]
  where
    ge : {n : ℕ} → ltb c n ≡ false → n ≤ c
    ge {n} e = ground arith

    below : IsScalar c → c < 0x110000
    below (inl x) = omega arith
    below (inr x) = x.1

unfoldable pub encode_all : List ℕ → List ℕ
unfolding encode
encode_all [] = []
encode_all (c ∷ cs) = encode c ++ encode_all cs

drop-append : (xs ys : List ℕ) → drop (length xs) (xs ++ ys) ≡ ys
drop-append [] ys = refl
drop-append (x ∷ xs) ys = drop-append xs ys

pub validate-width :
    (fuel pos a w : ℕ) (s : List ℕ)
    → char_width a s ≡ ok w
    → validate (suc fuel) pos (a ∷ s) ≡ validate fuel (pos + w) (drop (w - 1) s)
unfolding validate
validate-width fuel pos a w s h =
    ap
      (λ r. elim r [
        | ok w ↦ validate fuel (pos + w) (drop (w - 1) s)
        | err len ↦ err (record { valid_up_to = pos; error_len = len })
      ])
      h

suc-1 : (n : ℕ) → suc n - 1 ≡ n
suc-1 n = omega arith

validate-head :
    (fuel pos : ℕ) (bytes s : List ℕ) (h : IsHead bytes)
    → validate (suc fuel) pos (bytes ++ s) ≡ validate fuel (pos + suc (length h.others)) s
validate-head fuel pos bytes s h =
    ap (λ b. validate (suc fuel) pos (b ++ s)) h.split
    ∙ validate-width fuel pos h.lead (suc (length h.others)) (h.others ++ s) (h.width s)
    ∙ ap (λ k. validate fuel (pos + suc (length h.others)) (drop k (h.others ++ s)))
        (suc-1 (length h.others))
    ∙ ap (validate fuel (pos + suc (length h.others))) (drop-append h.others s)

pub encode_all-cons : (c : ℕ) (cs : List ℕ) → encode_all (c ∷ cs) ≡ encode c ++ encode_all cs
unfolding encode_all
encode_all-cons c cs = refl

validate-encode_all :
    (fuel pos : ℕ) (cs : List ℕ)
    → All IsScalar cs
    → length (encode_all cs) ≤ fuel
    → validate fuel pos (encode_all cs) ≡ ok tt
validate-encode_all fuel pos [] h n = unfold encode_all validate in refl
validate-encode_all zero pos (c ∷ cs) h n = absurd (
    omega (
      arith,
      ap (length) (encode_all-cons c cs),
      length-append (encode c) (encode_all cs),
      ap (length) (encode-IsHead c h.0).split,
    ))
validate-encode_all (suc fuel) pos (c ∷ cs) h n =
    ap (validate (suc fuel) pos) (encode_all-cons c cs)
    ∙ validate-head fuel pos (encode c) (encode_all cs) (encode-IsHead c h.0)
    ∙ validate-encode_all fuel _ cs h.1 (
        omega (
          arith,
          ap (length) (encode_all-cons c cs),
          length-append (encode c) (encode_all cs),
          ap (length) (encode-IsHead c h.0).split,
        ))

-- The check accepts the encoding of every sequence of code points that has no surrogate and ends at
-- 0x10ffff, and gives it back unchanged.
pub from_utf8-encode_all :
    (cs : List ℕ) → All IsScalar cs → from_utf8 (encode_all cs) ≡ ok (encode_all cs)
unfolding from_utf8
from_utf8-encode_all cs h =
    ap (λ (r : Result (Unit {0}) Utf8Error). r >>= λ _. ok (encode_all cs))
      (validate-encode_all (length (encode_all cs)) 0 cs h (omega arith))
