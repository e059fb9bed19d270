-- ===== src/Crypto.antt =====
-- crypto.rs over the ciphers of `Host`. A key is the list of its 32 bytes.
use my_domain_core.Prelude.{
  ◌>>=◌, if◌then◌else◌, Option-cases, nat_eq, string_eq, ◌/=◌, length, ℕ, String, ◌≡◌, inl, inr,
  Option, none, some, List, arith,
}
use Prim.Native.String.{◌++◌ as append}
use my_domain_core.Host.{Host}
use my_domain_core.Model.{Envelope}

module _ (h : Host) where
  -- The salt is `format!("my-domain-e2ee:{username}")`.
  unfoldable pub derive_key : String → String → Option (List ℕ)
  derive_key passphrase username = h.argon2 passphrase (append "my-domain-e2ee:" username)

  -- `turn` is the draw of the 24 random nonce bytes.
  unfoldable pub encrypt : ℕ → List ℕ → List ℕ → Option Envelope
  encrypt turn key plaintext = do
    ct ← h.aead_encrypt key (h.random turn 24) plaintext
    some (record { nonce = h.base64_encode (h.random turn 24); ciphertext = h.base64_encode ct })

  unfoldable pub decrypt : List ℕ → Envelope → Option (List ℕ)
  decrypt key env = do
    nonce ← h.base64_decode env.nonce
    let opened = do ct ← h.base64_decode env.ciphertext; h.aead_decrypt key nonce ct
    if length nonce /= 24 then none else opened

  -- "Generate": 24 random bytes in base64.
  unfoldable pub generate_key : ℕ → String
  generate_key turn = h.base64_encode (h.random turn 24)

-- What the core relies on of the crates: base64 decodes what it encoded, the random generator fills
-- the buffer, and the cipher opens what it sealed under one key and nonce.
pub record IsCipher (h : Host) : Type 0 where
  pub base64 : (b : List ℕ) → h.base64_decode (h.base64_encode b) ≡ some b
  pub fills : (turn n : ℕ) → length (h.random turn n) ≡ n
  pub opens :
      (key nonce plaintext ct : List ℕ)
      → h.aead_encrypt key nonce plaintext ≡ some ct
      → h.aead_decrypt key nonce ct ≡ some plaintext

-- Whatever a key encrypts it decrypts, under every nonce.
pub decrypt-encrypt :
    (h : Host) (turn : ℕ) (key plaintext : List ℕ) (env : Envelope)
    → IsCipher h
    → encrypt h turn key plaintext ≡ some env
    → decrypt h key env ≡ some plaintext
unfolding encrypt decrypt
decrypt-encrypt h turn key plaintext env c e =
    elim (Option-cases (h.aead_encrypt key (h.random turn 24) plaintext)) [
      | inl fails ↦ ground (arith, fails)
      | inr (ct, sealed) ↦ ground (
        arith,
        sealed,
        c.base64 (h.random turn 24),
        c.base64 ct,
        c.fills turn 24,
        c.opens key (h.random turn 24) plaintext ct,
      )
    ]
