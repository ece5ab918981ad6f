-- ===== src/Tests/Coding.antt =====
-- Concrete functions in place of the encodings and the cryptography: lists of numbers in unary
-- writing, claims as such lists, and a sum as a hash.
use mathlib.Core.Option
use Prim.Native.Char.{Char, char, code, IsLt}
use Prim.Native.Nat.{Ordering, lt, eq, gt, compare}
use multi_desk.Base.{
  ℕ, zero, suc, ◌+◌, String, Option, none, some, List, [], ◌∷◌, Bool, true, false, ◌&&◌, ◌==◌,
  num_eq, if◌then◌else◌, ◌≡◌, refl, ◌∙◌, ap, arith,
}
use multi_desk.Base.Int.{ℤ, pos, negsuc}
use multi_desk.Security.{Claims, Crypto}
use multi_desk.Security.Token.Split.{has_dot}
use multi_desk.Security.Token.RoundTrip.{IsFaithful}

-- a number before a text: so many times one letter, and another behind
unfoldable pub put_unary : ℕ → String → String
put_unary zero s = String.◌∷◌ "b" s
put_unary (suc n) s = String.◌∷◌ "a" (put_unary n s)

unfoldable pub unary : List ℕ → String
unary [] = String.[]
unary (n ∷ ns) = put_unary n (unary ns)

-- the reader counts the letters since the last number
unfoldable pub read_unary : ℕ → String → Option (List ℕ)
read_unary n String.[] = if num_eq n 0 then some [] else none
read_unary n (String.◌∷◌ c s) =
    let more = read_unary (suc n) s in
    let next = read_unary 0 s in
    if num_eq (code c) 0x61 then more else Option.map (λ ns. n ∷ ns) next

read_unary-put_unary :
    (m n : ℕ) (s : String)
    → read_unary m (put_unary n s) ≡ Option.map (λ ns. (n + m) ∷ ns) (read_unary 0 s)
unfolding read_unary put_unary
read_unary-put_unary m zero s = ground arith
read_unary-put_unary m (suc n) s = ground (arith, read_unary-put_unary (suc m) n s)

read_unary-unary : (ns : List ℕ) → read_unary 0 (unary ns) ≡ some ns
unfolding read_unary unary
read_unary-unary [] = refl
read_unary-unary (n ∷ ns) = ground (arith, read_unary-put_unary 0 n (unary ns), read_unary-unary ns)

has_dot-put_unary : (n : ℕ) (s : String) → has_dot (put_unary n s) ≡ has_dot s
unfolding has_dot put_unary
has_dot-put_unary zero s = refl
has_dot-put_unary (suc n) s = has_dot-put_unary n s

has_dot-unary : (ns : List ℕ) → has_dot (unary ns) ≡ false
unfolding has_dot unary
has_dot-unary [] = refl
has_dot-unary (n ∷ ns) = has_dot-put_unary n (unary ns) ∙ has_dot-unary ns

unfoldable pub same_bytes : List ℕ → List ℕ → Bool
same_bytes [] [] = true
same_bytes (m ∷ ms) (n ∷ ns) = num_eq m n && same_bytes ms ns
same_bytes _ _ = false

pub same_bytes_self : (ns : List ℕ) → same_bytes ns ns ≡ true
unfolding same_bytes
same_bytes_self [] = refl
same_bytes_self (n ∷ ns) = ground (arith, same_bytes_self ns)

-- the two helpers of `IsScalar`, which are private to its module, with the same clauses
abbrev pub BothLt : Ordering → Ordering → Type 0
BothLt lt o = IsLt o
BothLt eq _ = ⊥
BothLt gt _ = ⊥

abbrev pub Scalar : Ordering → Ordering → Ordering → Type 0
Scalar lt _ _ = Unit
Scalar eq o p = BothLt o p
Scalar gt o p = BothLt o p

unfoldable pub both_lt? : (a b : Ordering) → Option (BothLt a b)
both_lt? lt lt = some tt
both_lt? lt eq = none
both_lt? lt gt = none
both_lt? eq b = none
both_lt? gt b = none

unfoldable pub scalar? : (a b c : Ordering) → Option (Scalar a b c)
scalar? lt b c = some tt
scalar? eq b c = both_lt? b c
scalar? gt b c = both_lt? b c

both_lt?-some : (a b : Ordering) (p : BothLt a b) → both_lt? a b ≡ some p
unfolding both_lt?
both_lt?-some lt lt p = refl
both_lt?-some lt eq p = absurd p
both_lt?-some lt gt p = absurd p
both_lt?-some eq b p = absurd p
both_lt?-some gt b p = absurd p

scalar?-some : (a b c : Ordering) (p : Scalar a b c) → scalar? a b c ≡ some p
unfolding scalar?
scalar?-some lt b c p = refl
scalar?-some eq b c p = both_lt?-some b c p
scalar?-some gt b c p = both_lt?-some b c p

-- the character of a number, where it is one
unfoldable pub to_char : ℕ → Option Char
to_char n = Option.map (char n) (scalar? (compare n 55296) (compare 57343 n) (compare n 1114112))

to_char-code : (c : Char) → to_char (code c) ≡ some c
unfolding to_char
to_char-code (char n p) =
    ap (Option.map (char n))
      (scalar?-some (compare n 55296) (compare 57343 n) (compare n 1114112) p)

-- a text before a list of numbers: its characters' numbers from 1 on, and a 0 behind them
unfoldable pub put_text : String → List ℕ → List ℕ
put_text String.[] ns = 0 ∷ ns
put_text (String.◌∷◌ c s) ns = suc (code c) ∷ put_text s ns

unfoldable pub push : Option Char → Option (String × List ℕ) → Option (String × List ℕ)
push (some c) (some (s, ns)) = some (String.◌∷◌ c s, ns)
push _ _ = none

unfoldable pub read_text : List ℕ → Option (String × List ℕ)
read_text [] = none
read_text (zero ∷ ns) = some (String.[], ns)
read_text (suc n ∷ ns) = push (to_char n) (read_text ns)

read_text-put_text : (s : String) (ns : List ℕ) → read_text (put_text s ns) ≡ some (s, ns)
unfolding read_text put_text push
read_text-put_text String.[] ns = refl
read_text-put_text (String.◌∷◌ c s) ns = rw (to_char-code c, read_text-put_text s ns, push) refl

unfoldable pub put_int : ℤ → List ℕ → List ℕ
put_int (pos n) ns = 0 ∷ n ∷ ns
put_int (negsuc n) ns = 1 ∷ n ∷ ns

unfoldable pub marshal : Claims → List ℕ
marshal c =
    c.version ∷ put_int c.expires (put_text c.subject (put_text c.issuer (put_text c.audience [])))

unfoldable pub with_audience : ℕ → ℤ → String → String → Option (String × List ℕ) → Option Claims
with_audience version expires subject issuer none = none
with_audience version expires subject issuer (some (audience, ns)) = some (record {
  subject = subject;
  expires = expires;
  issuer = issuer;
  audience = audience;
  version = version;
})

unfoldable pub with_issuer : ℕ → ℤ → String → Option (String × List ℕ) → Option Claims
with_issuer version expires subject none = none
with_issuer version expires subject (some (issuer, ns)) =
    with_audience version expires subject issuer (read_text ns)

unfoldable pub with_subject : ℕ → ℤ → Option (String × List ℕ) → Option Claims
with_subject version expires none = none
with_subject version expires (some (subject, ns)) =
    with_issuer version expires subject (read_text ns)

unfoldable pub unmarshal : List ℕ → Option Claims
unmarshal (version ∷ zero ∷ n ∷ ns) = with_subject version (pos n) (read_text ns)
unmarshal (version ∷ suc m ∷ n ∷ ns) = with_subject version (negsuc n) (read_text ns)
unmarshal _ = none

unmarshal-marshal_int :
    (version : ℕ) (e : ℤ) (ns : List ℕ)
    → unmarshal (version ∷ put_int e ns) ≡ with_subject version e (read_text ns)
unfolding unmarshal put_int
unmarshal-marshal_int version (pos n) ns = refl
unmarshal-marshal_int version (negsuc n) ns = refl

unmarshal-marshal : (c : Claims) → unmarshal (marshal c) ≡ some c
unfolding marshal with_subject with_issuer with_audience
unmarshal-marshal c =
    unmarshal-marshal_int c.version c.expires _
    ∙ rw (read_text-put_text c.subject (put_text c.issuer (put_text c.audience [])), with_subject)
        (rw (read_text-put_text c.issuer (put_text c.audience []), with_issuer)
          (rw (read_text-put_text c.audience [], with_audience) refl))

unfoldable pub total : List ℕ → ℕ
total [] = 0
total (n ∷ ns) = n + total ns

unfoldable pub codes : String → List ℕ
codes s = put_text s []

-- 32 bytes under the name "key", and none under any other but the empty text
unfoldable pub standard : String → Option (List ℕ)
standard s =
    if s == "key"
    then some (
        0 ∷ 0 ∷ 0 ∷ 0 ∷ 0 ∷ 0 ∷ 0 ∷ 0 ∷ 0 ∷ 0 ∷ 0 ∷ 0 ∷ 0 ∷ 0 ∷ 0 ∷ 0 ∷ 0 ∷ 0 ∷ 0 ∷ 0 ∷ 0 ∷ 0 ∷ 0
        ∷ 0 ∷ 0 ∷ 0 ∷ 0 ∷ 0 ∷ 0 ∷ 0 ∷ 0 ∷ 0 ∷ [])
    else if s == "signed"
    then some []
    else none

abbrev pub coding : Crypto
coding = record {
  url_encode = unary;
  url_decode = read_unary 0;
  std_encode = unary;
  std_decode = standard;
  bytes = λ s. [];
  hmac_sha256 = λ key s. 7 ∷ [];
  hmac_sha1 = λ secret s. 7 ∷ [];
  bytes_equal = same_bytes;
  ed25519_verify = λ key message signature. same_bytes signature [];
  marshal_claims = marshal;
  unmarshal_claims = unmarshal;
  format_int = λ n. "0";
}

pub coding-IsFaithful : IsFaithful coding
coding-IsFaithful = record {
  dotless = has_dot-unary;
  decodes = read_unary-unary;
  unmarshals = unmarshal-marshal;
  equal_self = same_bytes_self;
}
