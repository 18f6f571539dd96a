-- ===== src/ServerConfig/Crypt.antt =====
-- `generateKey`, `encrypt` and `decrypt` of pkg/serverconfig/serverconfig.go.
use mysql8_audit_proxy.Base.{
  ℕ, ◌≡◌, ◌<◌, refl, Bool, true, ◌||◌, Option, none, some, ◌++◌, Text, length, take, drop, ltb,
  ge→ltb, Bool-cases, inl, inr, lt→ltb, ◌↔◌, ◌==◌, if◌then◌else◌, Result, ok, err, arith, All,
  All-append, take-length-append, drop-length-append, length-append,
}
use mysql8_audit_proxy.Base.Bytes.{IsByte}
use mysql8_audit_proxy.Base.Base64

-- AES in the mode GCM, of Go's crypto/cipher: `seal key nonce plaintext`. What is sealed is bytes,
-- and can be opened with the same key and nonce, if it was bytes before.
pub record Gcm : Type 0 where
  pub seal : Text → Text → Text → Text
  pub unseal : Text → Text → Text → Option Text
  pub seal-IsByte : (key nonce plaintext : Text) → All IsByte (seal key nonce plaintext)
  pub unseal-seal :
      (key nonce plaintext : Text)
      → All IsByte plaintext
      → unseal key nonce (seal key nonce plaintext) ≡ some plaintext

-- The errors, and with `slice_panic` the panic of a slice out of range.
pub data CryptError : Type 0 where
  bad_key no_random bad_base64 not_authentic slice_panic : CryptError

-- The keys that `aes.NewCipher` takes.
abbrev pub key_ok : Text → Bool
key_ok key = length key == 16 || length key == 24 || length key == 32

abbrev pub nonce_size : ℕ
nonce_size = 12

-- What `rand.Read` delivers for a nonce, if it is no error.
abbrev pub IsNonce : Option Text → Type 0
IsNonce none = Unit
IsNonce (some nonce) = (length nonce ≡ nonce_size) × All IsByte nonce

-- `rand.Read` at a buffer; `none` is its error.
unfoldable pub random_bytes : Option Text → Result CryptError Text
random_bytes none = err no_random
random_bytes (some b) = ok b

-- The 32 bytes that the random source delivers.
unfoldable pub generate_key : Option Text → Result CryptError Text
unfolding random_bytes
generate_key random = random_bytes random

module _ (gcm : Gcm) where
  open gcm use {seal, unseal, seal-IsByte, unseal-seal}

  abbrev pub seal_with : Text → Text → Result CryptError Text → Result CryptError Text
  seal_with key plaintext (err e) = err e
  seal_with key plaintext (ok nonce) = ok (Base64.encode (nonce ++ seal key nonce plaintext))

  -- `random` is what the random source delivers for the nonce.
  unfoldable pub encrypt : Text → Text → Option Text → Result CryptError Text
  unfolding random_bytes
  encrypt key plaintext random =
      if key_ok key then seal_with key plaintext (random_bytes random) else err bad_key

  open_with : Text → Option Text → Result CryptError Text
  open_with key none = err not_authentic
  open_with key (some plaintext) = ok plaintext

  decrypt_bytes : Text → Option Text → Result CryptError Text
  unfolding open_with
  decrypt_bytes key none = err bad_base64
  decrypt_bytes key (some b) =
      if ltb (length b) nonce_size
      then err slice_panic
      else open_with key (unseal key (take nonce_size b) (drop nonce_size b))

  pub decrypt : Text → Text → Result CryptError Text
  decrypt key ciphertext =
      if key_ok key then decrypt_bytes key (Base64.decode ciphertext) else err bad_key

  decrypt_bytes-sealed :
      (key nonce plaintext : Text)
      → length nonce ≡ nonce_size
      → All IsByte plaintext
      → decrypt_bytes key (some (nonce ++ seal key nonce plaintext)) ≡ ok plaintext
  unfolding decrypt_bytes
  decrypt_bytes-sealed key nonce plaintext hn hp =
      let sealed = seal key nonce plaintext in
      rw (
        ge→ltb (length (nonce ++ sealed)) nonce_size (omega (arith, length-append nonce sealed)),
        ← hn,
        take-length-append nonce sealed,
        drop-length-append nonce sealed,
        unseal-seal key nonce plaintext hp,
      )

  -- A password that was encrypted is decrypted again by the same key.
  pub decrypt-encrypt :
      (key plaintext nonce : Text)
      → key_ok key ≡ true
      → length nonce ≡ nonce_size
      → All IsByte nonce
      → All IsByte plaintext
      → (c : Text) × (encrypt key plaintext (some nonce) ≡ ok c) × (decrypt key c ≡ ok plaintext)
  unfolding encrypt decrypt
  decrypt-encrypt key plaintext nonce hk hn hb hp =
      let sealed = seal key nonce plaintext in
      (
        Base64.encode (nonce ++ sealed),
        rw hk,
        rw
            (
              hk,
              Base64.decode-encode (nonce ++ sealed)
                  (All-append IsByte nonce sealed hb (seal-IsByte key nonce plaintext)),
            )
            (decrypt_bytes-sealed key nonce plaintext hn hp),
      )

  decrypt_bytes-panics :
      (key : Text) (r : Option Text)
      → decrypt_bytes key r ≡ err slice_panic
      → (b : Text) × (r ≡ some b) × (length b < nonce_size)
  unfolding decrypt_bytes open_with
  decrypt_bytes-panics key none e = cc
  decrypt_bytes-panics key (some b) e = (b, refl, ground arith)

  -- Decryption panics exactly with a key of AES and a stored password that base64 decodes to less
  -- than twelve bytes.
  pub decrypt-panics_iff :
      (key c : Text)
      → (decrypt key c ≡ err slice_panic) ↔ (
          (key_ok key ≡ true) × ((b : Text) × (Base64.decode c ≡ some b) × (length b < nonce_size)))
  unfolding decrypt
  decrypt-panics_iff key c = (
    only_if,
    λ (hk, (b, e, h)). rw (hk, e) (unfold decrypt_bytes in rw (lt→ltb (length b) nonce_size h)),
  )
    where
      only_if :
          decrypt key c ≡ err slice_panic
          → ((key_ok key ≡ true)
              × ((b : Text) × (Base64.decode c ≡ some b) × (length b < nonce_size)))
      only_if e = elim (Bool-cases (key_ok key)) [
        | inl hk ↦ (hk, decrypt_bytes-panics key (Base64.decode c) (rw hk at e))
        | inr hk ↦ cc (rw hk at e)
      ]

  -- Whatever `encrypt` returns without an error for a plaintext of bytes and a nonce of twelve
  -- bytes is decrypted to the plaintext by the same key.
  pub decrypt-of_encrypt :
      (key plaintext c : Text) (random : Option Text)
      → IsNonce random
      → All IsByte plaintext
      → encrypt key plaintext random ≡ ok c
      → decrypt key c ≡ ok plaintext
  unfolding encrypt
  decrypt-of_encrypt key plaintext c none h hp e = ground arith
  decrypt-of_encrypt key plaintext c (some nonce) h hp e = elim (Bool-cases (key_ok key)) [
    | inl hk ↦
        let (d, q, r) = decrypt-encrypt key plaintext nonce hk h.0 h.1 hp in
        let same : d ≡ c = cc (q, e) in rw same at r
    | inr hk ↦ cc (rw hk at e)
  ]
