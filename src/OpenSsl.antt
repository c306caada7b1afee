-- ===== src/OpenSsl.antt =====
-- OpenSSL as the sources call it (src/Protocol.hpp, src/RSA.cpp, src/UDPNetwork.cpp): one function
-- for each call, `none` or `false` where the call reports failure. A non-null `EVP_PKEY*` is a
-- number. The laws below are what its documentation promises.
pub mod Toy
use kapua.Prelude.{
  ℕ, ◌+◌, ◌*◌, ◌/◌, ◌≤◌, ◌<◌, ◌≡◌, Bool, true, List, [], ◌∷◌, ◌++◌, Option, none, some, length,
}
use kapua.Prelude.Bytes.{AreBytes}

pub record OpenSsl : Type 0 where
  -- `i2d_PublicKey(key, nullptr)`, and the call that writes; `d2i_PublicKey`.
  pub i2d_length : ℕ → Option ℕ
  pub i2d : ℕ → Option (List ℕ)
  pub d2i : List ℕ → Option ℕ
  -- `EVP_PKEY_CTX_new`, `EVP_PKEY_encrypt_init`, and `EVP_PKEY_encrypt` without and with an output
  -- buffer; the padding is random, so the call that encrypts takes a seed first.
  pub pkey_ctx_new : ℕ → Bool
  pub pkey_encrypt_init : ℕ → Bool
  pub pkey_encrypted_size : ℕ → ℕ → Option ℕ
  pub pkey_encrypt : ℕ → ℕ → List ℕ → Option (List ℕ)
  -- `EVP_PKEY_decrypt_init`, and `EVP_PKEY_decrypt` at a key, the buffer size that it is told, and
  -- the input.
  pub pkey_decrypt_init : ℕ → Bool
  pub pkey_decrypt : ℕ → ℕ → List ℕ → Option (List ℕ)
  -- `EVP_CIPHER_CTX_new`; then the calls for AES-256-CBC at a key and an initialisation vector, and
  -- for the last two at the whole input.
  pub cipher_ctx_new : Bool
  pub cipher_encrypt_init : List ℕ → List ℕ → Bool
  pub cipher_encrypt_update : List ℕ → List ℕ → List ℕ → Option (List ℕ)
  pub cipher_encrypt_final : List ℕ → List ℕ → List ℕ → Option (List ℕ)
  pub cipher_decrypt_init : List ℕ → List ℕ → Bool
  pub cipher_decrypt_update : List ℕ → List ℕ → List ℕ → Option (List ℕ)
  pub cipher_decrypt_final : List ℕ → List ℕ → List ℕ → Option (List ℕ)

-- CBC with padding turns n bytes into whole blocks of 16, one of them at least partly padding.
pub record IsCbc (o : OpenSsl) : Type 0 where
  pub update_length :
      (key iv text : List ℕ) (out : List ℕ)
      → o.cipher_encrypt_update key iv text ≡ some out
      → length out ≡ 16 * (length text / 16)
  pub final_length :
      (key iv text : List ℕ) (out : List ℕ)
      → o.cipher_encrypt_final key iv text ≡ some out
      → length out ≡ 16

-- Under one key and vector, the calls for decryption accept what those for encryption gave, and give
-- the text back, in two parts.
pub record Inverts (o : OpenSsl) : Type 0 where
  pub accepts :
      (key iv : List ℕ) → o.cipher_encrypt_init key iv ≡ true → o.cipher_decrypt_init key iv ≡ true
  pub text_back :
      (key iv text update final : List ℕ)
      → o.cipher_encrypt_update key iv text ≡ some update
      → o.cipher_encrypt_final key iv text ≡ some final
      → (a : List ℕ) × (b : List ℕ) × (o.cipher_decrypt_update key iv (update ++ final) ≡ some a)
        × (o.cipher_decrypt_final key iv (update ++ final) ≡ some b)
        × (a ++ b ≡ text)

-- What the calls for decryption write: up to a block more than their input, and up to a block.
pub record IsBounded (o : OpenSsl) : Type 0 where
  pub update_bound :
      (key iv text out : List ℕ)
      → o.cipher_decrypt_update key iv text ≡ some out
      → length out ≤ length text + 16
  pub final_bound :
      (key iv text out : List ℕ) → o.cipher_decrypt_final key iv text ≡ some out → length out ≤ 16

-- The size that `EVP_PKEY_encrypt` gives without an output buffer is enough for what it then writes.
pub record IsSized (o : OpenSsl) : Type 0 where
  pub enough :
      (seed key size n : ℕ) (text out : List ℕ)
      → o.pkey_encrypted_size key size ≡ some n
      → o.pkey_encrypt seed key text ≡ some out
      → length text ≡ size
      → length out ≤ n

-- A public and a private key that belong together. `key_size` is what `EVP_PKEY_get_size` says of the
-- private one. `EVP_PKEY_decrypt` must be told the size of its output buffer; told less than the key's
-- size, it may fail, and nothing is asked of it then.
pub record IsPair (o : OpenSsl) (public private : ℕ) : Type 0 where
  pub usable : o.pkey_ctx_new private ≡ true
  pub initialises : o.pkey_decrypt_init private ≡ true
  pub key_size : ℕ
  pub decrypts :
      (seed size : ℕ) (text out : List ℕ)
      → key_size ≤ size
      → o.pkey_encrypt seed public text ≡ some out
      → o.pkey_decrypt private size out ≡ some text
