-- ===== src/Platform/Server/TwoFactor/Secrets.antt =====
-- `encryptSecret` and `decryptSecret` of server/internal/platform/totp.go.
use multi_desk.Base.{
  ℕ, ◌≡◌, sym, ap, ◌∙◌, false, length-append, take-append, drop-append, String, Option, none, some,
  List, ◌++◌, ltb, length, take, drop, if◌then◌else◌, arith,
}
use multi_desk.Platform.World.{World}

-- `encryptSecret` with the nonce drawn: the nonce stands before what `Seal` gives. The key has at least
-- 32 bytes, so that neither the cipher nor its mode is refused.
unfoldable pub encrypt_secret : World → ℕ → List ℕ → String → List ℕ
encrypt_secret w draw key secret =
    let nonce = w.random draw 12 in nonce ++ w.seal (take 32 key) nonce secret

-- `none` where `decryptSecret` returns an error
unfoldable pub decrypt_secret : World → List ℕ → List ℕ → Option String
decrypt_secret w key text =
    if ltb (length text) 12 then none else w.unseal (take 32 key) (take 12 text) (drop 12 text)

-- Where `Open` gives back what `Seal` has sealed under the same key and nonce, and the random source
-- gives the 12 bytes that it is asked for, a secret that is encrypted under a key is decrypted again.
decrypt_secret-encrypt_secret :
    (w : World) (draw : ℕ) (key : List ℕ) (secret : String)
    → length (w.random draw 12) ≡ 12
    → w.unseal (take 32 key) (w.random draw 12) (w.seal (take 32 key) (w.random draw 12) secret)
      ≡ some secret
    → decrypt_secret w key (encrypt_secret w draw key secret) ≡ some secret
unfolding encrypt_secret decrypt_secret
decrypt_secret-encrypt_secret w draw key secret twelve opens =
    let nonce : List ℕ = w.random draw 12 in
    let sealed = w.seal (take 32 key) nonce secret in
    let long : ltb (length (nonce ++ sealed)) 12 ≡ false =
      ground (arith, length-append nonce sealed, twelve) in
    let front : take 12 (nonce ++ sealed) ≡ nonce =
      ap (λ n. take n (nonce ++ sealed)) (sym twelve) ∙ take-append nonce sealed in
    let back : drop 12 (nonce ++ sealed) ≡ sealed =
      ap (λ n. drop n (nonce ++ sealed)) (sym twelve) ∙ drop-append nonce sealed in
    rw long (rw (front, back) opens)
