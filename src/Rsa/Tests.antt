-- ===== src/Rsa/Tests.antt =====
-- src/RSA.cpp: the theorems on session keys and key files, at a session key of 32 bytes.
use kapua.Prelude.{
  ℕ, ◌-◌, ◌==◌, ◌≡◌, refl, true, false, not, List, [], ◌∷◌, Option, if◌then◌else◌, replicate, none,
  some, arith,
}
use kapua.Prelude.Results.{ok}
use kapua.OpenSsl.Toy.{toy, toy_pair}
use kapua.Rsa.{
  encrypt_aes_context, decrypt_aes_context, load_rsa_key_pair, load_private, finish_load, malformed,
  holds, get_pkey_size,
}
use kapua.Rsa.SessionKey.{decrypt_aes_context-encrypt_aes_context}
use kapua.Rsa.Generation.{
  Files, KeyGeneration, Pem, Permissions, generated, save, generate_rsa_key_pair, load_saved, IsPem,
  load_saved-generate_rsa_key_pair, key_file,
}
use kapua.Text.{text, text_eq}
use kapua.Rsa.KeyFiles.{load_rsa_key_pair_outcome}

abbrev pub session_key : List ℕ
session_key = 200 ∷ 7 ∷ replicate 30 9

decrypt_aes_context-encrypt_aes_context_run :
    decrypt_aes_context toy (replicate 32 0) (some 12) 256 session_key 32 ≡ ok (true, session_key)
unfolding encrypt_aes_context
decrypt_aes_context-encrypt_aes_context_run =
    decrypt_aes_context-encrypt_aes_context toy 5 11 12 1404 256 session_key (replicate 32 0)
      session_key session_key (toy_pair 11 12) (omega arith) refl refl refl (omega arith) refl

-- The public key's file holds no key, and loading succeeds.
load_rsa_key_pair_outcome_example : (load_rsa_key_pair malformed (holds 12)).success ≡ true
load_rsa_key_pair_outcome_example = (load_rsa_key_pair_outcome malformed (holds 12)).0

sizes : (get_pkey_size (λ k. 256) none ≡ 0) × (get_pkey_size (λ k. 256) (some 11) ≡ 256)
unfolding get_pkey_size
sizes = (refl, refl)

-- Keys are written as a number behind a tag, the public half of a key being the number before it.
abbrev pub read_tagged : ℕ → List ℕ → Option ℕ
read_tagged tag (t ∷ key ∷ []) = if t == tag then some key else none
read_tagged tag _ = none

abbrev pub pem : Pem
pem = record {
  write_pubkey = λ key. (true, 0 ∷ (key - 1) ∷ []);
  write_private_key = λ key. (true, 1 ∷ key ∷ []);
  read_pubkey = read_tagged 0;
  read_private_key = read_tagged 1;
}

pem-IsPem : IsPem (λ key. key - 1) pem
pem-IsPem = record { read-write_pubkey = λ key w. refl; read-write_private_key = λ key w. refl }

abbrev pub key_generation : KeyGeneration
key_generation = record {
  keygen_init = true;
  set_rsa_keygen_bits = λ bits. bits == 2048;
  keygen = some 12;
}

-- Every file but one can be written.
abbrev pub permissions : Permissions
permissions = record {
  writable = λ name. not (text_eq name (text "locked"));
  readable = λ name. true;
}

abbrev pub no_files : Files
no_files name = none

load_saved-generate_rsa_key_pair_example :
    load_saved pem permissions (text "public.pem") (text "private.pem") (
      (generate_rsa_key_pair key_generation pem permissions
        (text "public.pem")
        (text "private.pem")
        2048
        no_files).1)
    ≡ record {
      success = true;
      pair = record { public_key = some 11; private_key = some 12 };
      freed = [];
    }
unfolding generate_rsa_key_pair generated save
load_saved-generate_rsa_key_pair_example =
    load_saved-generate_rsa_key_pair (λ key. key - 1) pem pem-IsPem key_generation permissions
      (text "public.pem") (text "private.pem") 2048 12 no_files refl refl refl refl refl refl refl

-- The call that writes the private key fails, which goes unnoticed until the key is loaded.
abbrev full_disk : Pem
full_disk = record pem { write_private_key = λ key. (false, []) }

unwritten :
    let (made, files) =
      generate_rsa_key_pair key_generation full_disk permissions
        (text "public.pem")
        (text "private.pem")
        2048
        no_files in
    (made ≡ true)
    × ((load_saved full_disk permissions (text "public.pem") (text "private.pem") files).success
        ≡ false)
unfolding generate_rsa_key_pair generated save load_saved key_file load_rsa_key_pair load_private
    finish_load
unwritten = (refl, refl)

-- A private key that cannot be saved leaves the new public key behind.
half_saved :
    ((generate_rsa_key_pair key_generation pem permissions
        (text "public.pem")
        (text "locked")
        2048
        no_files).0
      ≡ false)
    × ((generate_rsa_key_pair key_generation pem permissions
            (text "public.pem")
            (text "locked")
            2048
            no_files).1
          (text "public.pem")
        ≡ some (0 ∷ 11 ∷ []))
unfolding generate_rsa_key_pair generated save
half_saved = (refl, refl)
