-- ===== src/Store/Postgres/Base64.antt =====
-- `pgxDecodeB64`, `publicKeyBytes` and `pkBytesToB64` of server/internal/store/postgres.go: base64 in
-- the standard alphabet, written by hand over an accumulator of 32 bits.
pub mod RoundTrip
use mathlib.Core.Option
use Prim.Native.Char.{Char, code}
use Prim.Native.Nat.{◌^◌}
use multi_desk.Base.{
  ℕ, zero, suc, ◌+◌, ◌-◌, ◌*◌, ◌/◌, ◌%◌, String, Option, none, some, List, [], ◌∷◌, Bool, true,
  false, num_eq, leb, length, if◌then◌else◌,
}
use multi_desk.Base.Text.{trim_space}

abbrev pub alphabet : String
alphabet = "ABCDEFGHIJKLMNOPQRSTUVWXYZabcdefghijklmnopqrstuvwxyz0123456789+/"

-- `alphabet[n]`
unfoldable pub char_in : String → ℕ → Char
char_in String.[] n = "A"
char_in (String.◌∷◌ c s) zero = c
char_in (String.◌∷◌ c s) (suc n) = char_in s n

unfoldable pub letter : ℕ → Char
letter n = char_in alphabet n

-- `lut[c]`, filled from the alphabet; `none` for 0xFF
unfoldable pub index_in : String → Char → Option ℕ
index_in String.[] c = none
index_in (String.◌∷◌ d s) c =
    let rest = index_in s c in if num_eq (code d) (code c) then some 0 else Option.map suc rest

unfoldable pub value : Char → Option ℕ
value c = index_in alphabet c

-- `(acc << 6) | uint32(v)`
unfoldable pub shift_in : ℕ → ℕ → ℕ
shift_in acc v = acc * 64 % 4294967296 + v

-- The loop of `pgxDecodeB64` with the room that is left in the buffer; `none` where it returns an
-- error.
unfoldable pub decode_loop : ℕ → ℕ → ℕ → String → Option (List ℕ)
decode_loop acc bits room String.[] = some []
decode_loop acc bits room (String.◌∷◌ c s) = elim (num_eq (code c) 0x3D) [
  | true ↦ some []
  | false ↦ elim (value c) [
    | none ↦ none
    | some v ↦ elim (leb 8 (bits + 6)) [
      | false ↦ decode_loop (shift_in acc v) (bits + 6) room s
      | true ↦ elim room [
        | zero ↦ none
        | suc r ↦
            Option.map (λ out. (shift_in acc v / 2 ^ (bits + 6 - 8) % 256) ∷ out)
              (decode_loop (shift_in acc v) (bits + 6 - 8) r s)
      ]
    ]
  ]
]

-- `none` where `publicKeyBytes` returns an error
unfoldable pub exactly_32 : Option (List ℕ) → Option (List ℕ)
exactly_32 none = none
exactly_32 (some out) = if num_eq (length out) 32 then some out else none

unfoldable pub public_key_bytes : String → Option (List ℕ)
public_key_bytes b64 = exactly_32 (decode_loop 0 0 32 (trim_space b64))

-- the second and the third letter of a group
unfoldable pub second_of : ℕ → ℕ → Char
second_of b0 b1 = letter (b0 % 4 * 16 + b1 / 16)

unfoldable pub third_of : ℕ → ℕ → Char
third_of b1 b2 = letter (b1 % 16 * 4 + b2 / 64)

-- `pkBytesToB64`
unfoldable pub to_base64 : List ℕ → String
to_base64 [] = String.[]
to_base64 (b0 ∷ []) = String.◌∷◌ (letter (b0 / 4)) (String.◌∷◌ (second_of b0 0) "==")
to_base64 (b0 ∷ b1 ∷ []) =
    String.◌∷◌ (letter (b0 / 4)) (String.◌∷◌ (second_of b0 b1) (String.◌∷◌ (third_of b1 0) "="))
to_base64 (b0 ∷ b1 ∷ b2 ∷ bs) = String.◌∷◌ (letter (b0 / 4)) (
    String.◌∷◌ (second_of b0 b1)
      (String.◌∷◌ (third_of b1 b2) (String.◌∷◌ (letter (b2 % 64)) (to_base64 bs))))
