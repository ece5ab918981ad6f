-- ===== src/Store/Postgres/Base64/RoundTrip.antt =====
-- What `pkBytesToB64` writes, `pgxDecodeB64` reads back.
use mathlib.Core.Option
use Prim.Native.Char.{code}
use Prim.Native.Nat.{◌^◌}
use multi_desk.Base.{
  ℕ, zero, suc, ◌+◌, ◌-◌, ◌*◌, ◌/◌, ◌%◌, ◌≤◌, ◌<◌, String, none, some, List, [], ◌∷◌, Bool, true,
  false, ◌&&◌, num_eq, leb, ltb, length, all, ◌≡◌, refl, ◌∙◌, ap, arith, not, Bool-cases, inl, inr,
}
use multi_desk.Base.Text.{is_space, has_space, trim_space-no_space}
use multi_desk.Store.Postgres.Base64.{
  char_in, letter, index_in, value, shift_in, decode_loop, to_base64, second_of, third_of,
  public_key_bytes, exactly_32,
}

-- the letter of the number is read as the number, and is neither padding nor white space
unfoldable is_read : ℕ → Bool
is_read n =
    elim (value (letter n)) [ none ↦ false | some v ↦ num_eq v n ]
    && not (num_eq (code (letter n)) 0x3D)
    && not (is_space (code (letter n)))

all_below : ℕ → Bool
all_below zero = true
all_below (suc n) = is_read n && all_below n

letters : all_below 64 ≡ true
unfolding all_below is_read is_space value letter index_in char_in
letters = refl

is_read-below : (m n : ℕ) → all_below m ≡ true → n < m → is_read n ≡ true
unfolding all_below
is_read-below zero n h l = ground arith
is_read-below (suc m) n h l = elim (Bool-cases (num_eq n m)) [
  | inl e ↦ let same : n ≡ m = ground arith in ap is_read same ∙ ground arith
  | inr o ↦ is_read-below m n (ground arith) (ground arith)
]

module _ (n : ℕ) (small : n < 64) where
  value-letter : value (letter n) ≡ some n
  unfolding is_read
  value-letter = ground (arith, is_read-below 64 n letters small)

  letter_no_padding : num_eq (code (letter n)) 0x3D ≡ false
  unfolding is_read
  letter_no_padding = ground (arith, is_read-below 64 n letters small)

has_space-letter : (n : ℕ) (s : String) → n < 64 → has_space (String.◌∷◌ (letter n) s) ≡ has_space s
unfolding has_space is_read
has_space-letter n s small = ground (arith, is_read-below 64 n letters small)

-- the three bytes that a group gives back, whatever the accumulator held
first_byte :
    (acc b0 b1 : ℕ)
    → b0 < 256
    → b1 < 256
    → shift_in (shift_in acc (b0 / 4)) (b0 % 4 * 16 + b1 / 16) / 16 % 256 ≡ b0
unfolding shift_in
first_byte acc b0 b1 h k = omega arith

second_byte :
    (acc b0 b1 b2 : ℕ)
    → b0 < 256
    → b1 < 256
    → b2 < 256
    → shift_in (shift_in acc (b0 % 4 * 16 + b1 / 16)) (b1 % 16 * 4 + b2 / 64) / 4 % 256 ≡ b1
unfolding shift_in
second_byte acc b0 b1 b2 h k l = omega arith

third_byte :
    (acc b1 b2 : ℕ)
    → b1 < 256
    → b2 < 256
    → shift_in (shift_in acc (b1 % 16 * 4 + b2 / 64)) (b2 % 64) / 1 % 256 ≡ b2
unfolding shift_in
third_byte acc b1 b2 k l = omega arith

module _ (acc bits : ℕ) (n : ℕ) (small : n < 64) (s : String) where
  -- a letter that completes no byte
  decode_loop-short :
      (room : ℕ)
      → leb 8 (bits + 6) ≡ false
      → decode_loop acc bits room (String.◌∷◌ (letter n) s)
        ≡ decode_loop (shift_in acc n) (bits + 6) room s
  unfolding decode_loop
  decode_loop-short room few =
      rw (letter_no_padding n small, decode_loop)
        (rw (value-letter n small, decode_loop) (rw (few, decode_loop) refl))

  -- a letter that completes a byte
  decode_loop-byte :
      (r : ℕ)
      → leb 8 (bits + 6) ≡ true
      → decode_loop acc bits (suc r) (String.◌∷◌ (letter n) s)
        ≡ Option.map
            (λ out. (shift_in acc n / 2 ^ (bits + 6 - 8) % 256) ∷ out)
            (decode_loop (shift_in acc n) (bits + 6 - 8) r s)
  unfolding decode_loop
  decode_loop-byte r enough =
      rw (letter_no_padding n small, decode_loop)
        (rw (value-letter n small, decode_loop) (rw (enough, decode_loop) refl))

  decode_loop-gives :
      (r b : ℕ) (out : List ℕ)
      → leb 8 (bits + 6) ≡ true
      → shift_in acc n / 2 ^ (bits + 6 - 8) % 256 ≡ b
      → decode_loop (shift_in acc n) (bits + 6 - 8) r s ≡ some out
      → decode_loop acc bits (suc r) (String.◌∷◌ (letter n) s) ≡ some (b ∷ out)
  decode_loop-gives r b out enough value rest = decode_loop-byte r enough ∙ rw (rest, value) refl

-- one whole group
decode_loop-group :
    (acc r b0 b1 b2 : ℕ) (s : String) (out : List ℕ)
    → b0 < 256
    → b1 < 256
    → b2 < 256
    → ((acc' : ℕ) → decode_loop acc' 0 r s ≡ some out)
    → decode_loop acc 0 (suc (suc (suc r))) (
        String.◌∷◌ (letter (b0 / 4)) (
          String.◌∷◌
            (second_of b0 b1)
            (String.◌∷◌ (third_of b1 b2) (String.◌∷◌ (letter (b2 % 64)) s))))
      ≡ some (b0 ∷ b1 ∷ b2 ∷ out)
unfolding second_of third_of
decode_loop-group acc r b0 b1 b2 s out h0 h1 h2 rest =
    decode_loop-short acc 0 (b0 / 4) (omega arith) _ (suc (suc (suc r))) refl
    ∙ decode_loop-gives _ 6 (b0 % 4 * 16 + b1 / 16) (omega arith) _ (suc (suc r)) b0 (b1 ∷ b2 ∷ out)
        refl (first_byte acc b0 b1 h0 h1)
        (decode_loop-gives _ 4 (b1 % 16 * 4 + b2 / 64) (omega arith) _ (suc r) b1 (b2 ∷ out) refl
          (second_byte _ b0 b1 b2 h0 h1 h2)
          (decode_loop-gives _ 2 (b2 % 64) (omega arith) _ r b2 out refl (third_byte _ b1 b2 h1 h2)
            (rest _)))

one_pad : (acc bits r : ℕ) → decode_loop acc bits r "=" ≡ some []
unfolding decode_loop
one_pad acc bits r = refl

two_pads : (acc bits r : ℕ) → decode_loop acc bits r "==" ≡ some []
unfolding decode_loop
two_pads acc bits r = refl

-- the last group, of two bytes or of one
decode_loop-two :
    (acc r b0 b1 : ℕ)
    → b0 < 256
    → b1 < 256
    → decode_loop acc 0 (suc (suc r)) (
        String.◌∷◌
          (letter (b0 / 4))
          (String.◌∷◌ (second_of b0 b1) (String.◌∷◌ (third_of b1 0) "=")))
      ≡ some (b0 ∷ b1 ∷ [])
unfolding second_of third_of
decode_loop-two acc r b0 b1 h0 h1 =
    decode_loop-short acc 0 (b0 / 4) (omega arith) _ (suc (suc r)) refl
    ∙ decode_loop-gives _ 6 (b0 % 4 * 16 + b1 / 16) (omega arith) _ (suc r) b0 (b1 ∷ []) refl
        (first_byte acc b0 b1 h0 h1)
        (decode_loop-gives _ 4 (b1 % 16 * 4 + 0 / 64) (omega arith) _ r b1 [] refl
          (second_byte _ b0 b1 0 h0 h1 (omega arith)) (one_pad _ 2 r))

decode_loop-one :
    (acc r b0 : ℕ)
    → b0 < 256
    → decode_loop acc 0 (suc r) (String.◌∷◌ (letter (b0 / 4)) (String.◌∷◌ (second_of b0 0) "=="))
      ≡ some (b0 ∷ [])
unfolding second_of
decode_loop-one acc r b0 h0 =
    decode_loop-short acc 0 (b0 / 4) (omega arith) _ (suc r) refl
    ∙ decode_loop-gives _ 6 (b0 % 4 * 16 + 0 / 16) (omega arith) _ r b0 [] refl
        (first_byte acc b0 0 h0 (omega arith)) (two_pads _ 4 r)

-- a list of bytes
abbrev pub is_bytes : List ℕ → Bool
is_bytes = all (λ b. ltb b 256)

-- The decoder, with an empty accumulator or a used one and at least as much room as there are bytes,
-- reads back every list of bytes from its base64.
decode_loop-to_base64 :
    (acc room : ℕ) (bs : List ℕ)
    → is_bytes bs ≡ true
    → length bs ≤ room
    → decode_loop acc 0 room (to_base64 bs) ≡ some bs
unfolding to_base64 decode_loop
decode_loop-to_base64 acc room [] h l = refl
decode_loop-to_base64 acc (suc r) (b0 ∷ []) h l = decode_loop-one acc r b0 (ground arith)
decode_loop-to_base64 acc (suc (suc r)) (b0 ∷ b1 ∷ []) h l =
    decode_loop-two acc r b0 b1 (ground arith) (ground arith)
decode_loop-to_base64 acc (suc (suc (suc r))) (b0 ∷ b1 ∷ b2 ∷ bs) h l =
    decode_loop-group acc r b0 b1 b2 (to_base64 bs) bs (ground arith) (ground arith) (ground arith)
      (λ acc'. decode_loop-to_base64 acc' r bs (ground arith) (omega arith))
decode_loop-to_base64 acc room bs h l = absurd (omega arith)

no_space_at_end : has_space String.[] ≡ false
unfolding has_space
no_space_at_end = refl

no_space_in_pad : has_space "=" ≡ false
unfolding has_space is_space
no_space_in_pad = refl

no_space_in_pads : has_space "==" ≡ false
unfolding has_space is_space
no_space_in_pads = refl

has_space-to_base64 : (bs : List ℕ) → is_bytes bs ≡ true → has_space (to_base64 bs) ≡ false
unfolding to_base64 second_of third_of
has_space-to_base64 [] h = no_space_at_end
has_space-to_base64 (b0 ∷ []) h =
    has_space-letter (b0 / 4) _ (ground arith)
    ∙ has_space-letter (b0 % 4 * 16 + 0 / 16) "==" (omega arith)
    ∙ no_space_in_pads
has_space-to_base64 (b0 ∷ b1 ∷ []) h =
    has_space-letter (b0 / 4) _ (ground arith)
    ∙ has_space-letter (b0 % 4 * 16 + b1 / 16) _ (ground arith)
    ∙ has_space-letter (b1 % 16 * 4 + 0 / 64) "=" (omega arith)
    ∙ no_space_in_pad
has_space-to_base64 (b0 ∷ b1 ∷ b2 ∷ bs) h =
    has_space-letter (b0 / 4) _ (ground arith)
    ∙ has_space-letter (b0 % 4 * 16 + b1 / 16) _ (ground arith)
    ∙ has_space-letter (b1 % 16 * 4 + b2 / 64) _ (ground arith)
    ∙ has_space-letter (b2 % 64) _ (omega arith)
    ∙ has_space-to_base64 bs (ground arith)

-- A public key of 32 bytes, written as base64 by the store, is read back as the same bytes.
pub public_key_bytes-to_base64 :
    (key : List ℕ)
    → is_bytes key ≡ true
    → length key ≡ 32
    → public_key_bytes (to_base64 key) ≡ some key
unfolding public_key_bytes exactly_32
public_key_bytes-to_base64 key h l =
    rw (trim_space-no_space (to_base64 key) (has_space-to_base64 key h))
      (rw (decode_loop-to_base64 0 32 key h (omega arith)) (rw l refl))
