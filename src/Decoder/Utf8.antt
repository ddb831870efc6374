-- ===== src/Decoder/Utf8.antt =====
-- src/decoder/utf8.rs, and the check of UTF-8 that Rust's standard library makes in `from_utf8`.
pub mod Encode
pub mod Sound
pub mod Decoded
use rosetta_mq.Prelude.{
  ℕ, zero, suc, ◌+◌, ◌-◌, length, drop, ◌>>=◌, Bool, ◌&&◌, Option, none, some, List, [], ◌∷◌,
  Result, ok, err, ◌==◌, leb, ltb, if◌then◌else◌,
}
use rosetta_mq.Text.{Text, codes}
use rosetta_mq.Mqtt.{Publish}
use rosetta_mq.Decoder.{Act, send_last, fail, with_payload, Decoder}

-- `Utf8Error`: `error_len` is `none` where the input ends inside a character.
pub record Utf8Error : Type 0 where
  pub valid_up_to : ℕ
  pub error_len : Option ℕ

abbrev between : ℕ → ℕ → ℕ → Bool
between lo hi b = leb lo b && leb b hi

-- A continuation byte.
abbrev pub is_cont : ℕ → Bool
is_cont b = between 0x80 0xbf b

abbrev pub is_lead2 : ℕ → Bool
is_lead2 b = between 0xc2 0xdf b

abbrev pub is_lead3 : ℕ → Bool
is_lead3 b = between 0xe0 0xef b

abbrev pub is_lead4 : ℕ → Bool
is_lead4 b = between 0xf0 0xf4 b

-- Which second bytes a lead byte of three or four allows: no overlong form, no surrogate, and
-- nothing past the last code point.
abbrev pub second3 : ℕ → ℕ → Bool
second3 lead b =
    if lead == 0xe0
    then between 0xa0 0xbf b
    else if lead == 0xed
    then between 0x80 0x9f b
    else is_cont b

abbrev pub second4 : ℕ → ℕ → Bool
second4 lead b =
    if lead == 0xf0
    then between 0x90 0xbf b
    else if lead == 0xf4
    then between 0x80 0x8f b
    else is_cont b

-- The next byte, or the error of an input that ends inside a character.
abbrev pub next_byte : List ℕ → (ℕ → List ℕ → Result ℕ (Option ℕ)) → Result ℕ (Option ℕ)
next_byte [] k = err none
next_byte (b ∷ s) k = k b s

-- The width of the character that begins with the byte, or the `error_len`.
unfoldable pub char_width : ℕ → List ℕ → Result ℕ (Option ℕ)
char_width a s =
    if ltb a 0x80
    then ok 1
    else if is_lead2 a
    then next_byte s (λ b _. if is_cont b then ok 2 else err (some 1))
    else if is_lead3 a
    then next_byte s (λ b t.
      if second3 a b
      then next_byte t (λ c _. if is_cont c then ok 3 else err (some 2))
      else err (some 1))
    else if is_lead4 a
    then next_byte s (λ b t.
      if second4 a b
      then next_byte t (λ c u.
        if is_cont c
        then next_byte u (λ d _. if is_cont d then ok 4 else err (some 3))
        else err (some 2))
      else err (some 1))
    else err (some 1)

-- The scan from a position. Each round takes a byte at least, so the length of the input is enough
-- fuel.
unfoldable pub validate : ℕ → ℕ → List ℕ → Result (Unit {0}) Utf8Error
unfolding char_width
validate fuel pos [] = ok tt
validate zero pos (a ∷ s) = ok tt
validate (suc fuel) pos (a ∷ s) = elim (char_width a s) [
  | ok w ↦ validate fuel (pos + w) (drop (w - 1) s)
  | err len ↦ err (record { valid_up_to = pos; error_len = len })
]

-- `std::str::from_utf8`: the same bytes as text.
unfoldable pub from_utf8 : List ℕ → Result Text Utf8Error
unfolding validate
from_utf8 payload = do _ ← validate (length payload) 0 payload; ok payload

module _ (display : Utf8Error → Text) where
  unfoldable pub utf8 : Publish → Act Utf8Error
  utf8 publish = elim (from_utf8 publish.payload) [
    | ok text ↦ send_last (with_payload text)
    | err e ↦ fail e
  ]

  unfoldable pub utf8_decoder : Decoder
  utf8_decoder = record { Error = Utf8Error; display = display; name = codes "utf8"; run = utf8 }
