-- ===== src/Rsa.antt =====
-- src/RSA.hpp and src/RSA.cpp: the session key under RSA, and the key files.
pub mod SessionKey
pub mod KeyFiles
pub mod Generation
pub mod Tests
use kapua.Prelude.{
  ℕ, Bool, true, false, not, List, [], ◌∷◌, ◌++◌, Option, none, some, ltb, ◌==◌, if◌then◌else◌,
  length, take,
}
use kapua.Prelude.Bytes.{overwrite}
use kapua.Prelude.Results.{Result, ok, undefined, past_end}
use kapua.OpenSsl.{OpenSsl}
use kapua.Node.{KeyPair}

-- `sizeof(AESKey)`
abbrev pub aes_key_size : ℕ
aes_key_size = 32

-- The bytes that are written to the output buffer of `in_size` bytes, or `none` where the method
-- returns false. A null key gives no context.
unfoldable pub encrypt_aes_context : OpenSsl → ℕ → List ℕ → Option ℕ → ℕ → Result (Option (List ℕ))
encrypt_aes_context o seed context none in_size = ok none
encrypt_aes_context o seed context (some key) in_size =
    if not (o.pkey_ctx_new key)
    then ok none
    else if not (o.pkey_encrypt_init key)
    then ok none
    else elim (o.pkey_encrypted_size key aes_key_size) [
      | none ↦ ok none
      | some out_size ↦
          if ltb in_size out_size then ok none else elim (o.pkey_encrypt seed key context) [
            | none ↦ ok none
            | some out ↦ if ltb in_size (length out) then undefined past_end else ok (some out)
          ]
    ]

-- The method's result, and the context as it leaves it: what was decrypted is written there before
-- its size is checked. `out_size` is what the caller's variable holds; OpenSSL is given `in_size` bytes
-- from the beginning of the input buffer.
unfoldable pub decrypt_aes_context :
    OpenSsl → List ℕ → Option ℕ → ℕ → List ℕ → ℕ → Result (Bool × List ℕ)
decrypt_aes_context o context none out_size input in_size = ok (false, context)
decrypt_aes_context o context (some key) out_size input in_size =
    if not (o.pkey_ctx_new key)
    then ok (false, context)
    else if not (o.pkey_decrypt_init key)
    then ok (false, context)
    else if ltb (length input) in_size
    then undefined past_end
    else elim (o.pkey_decrypt key out_size (take in_size input)) [
      | none ↦ ok (false, context)
      | some text ↦
          if ltb aes_key_size (length text)
          then undefined past_end
          else ok (length text == aes_key_size, overwrite text context)
    ]

-- A key file: it cannot be opened, holds no key that OpenSSL reads, or holds a key.
pub data KeyFile : Type 0 where
  unopened malformed : KeyFile
  holds : ℕ → KeyFile

-- `PEM_read_PUBKEY` and `PEM_read_PrivateKey`, null where the file holds no key.
abbrev pub key_in : KeyFile → Option ℕ
key_in unopened = none
key_in malformed = none
key_in (holds key) = some key

abbrev pub is_open : KeyFile → Bool
is_open unopened = false
is_open _ = true

-- What `load_rsa_key_pair` returns, the pair that it leaves, and the keys that it frees.
pub record Loaded : Type 0 where
  pub success : Bool
  pub pair : KeyPair
  pub freed : List ℕ

abbrev pub to_free : Option ℕ → List ℕ
to_free none = []
to_free (some key) = key ∷ []

unfoldable pub finish_load : Bool → KeyPair → Loaded
finish_load true pair = record { success = true; pair = pair; freed = [] }
finish_load false pair = record {
  success = false;
  pair = record { public_key = none; private_key = none };
  freed = to_free pair.public_key ++ to_free pair.private_key;
}

-- The second half: the private key's file, after the public key's.
unfoldable pub load_private : Bool → Option ℕ → KeyFile → Loaded
unfolding finish_load
load_private success public unopened =
    finish_load false (record { public_key = public; private_key = none })
load_private success public malformed = record {
  success = false;
  pair = record { public_key = public; private_key = none };
  freed = [];
}
load_private success public (holds key) =
    finish_load success (record { public_key = public; private_key = some key })

unfoldable pub load_rsa_key_pair : KeyFile → KeyFile → Loaded
unfolding load_private
load_rsa_key_pair public_file private_file =
    load_private (is_open public_file) (key_in public_file) private_file

-- `EVP_PKEY_size` is OpenSSL's.
unfoldable pub get_pkey_size : (ℕ → ℕ) → Option ℕ → ℕ
get_pkey_size evp_pkey_size none = 0
get_pkey_size evp_pkey_size (some key) = evp_pkey_size key
