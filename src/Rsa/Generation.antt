-- ===== src/Rsa/Generation.antt =====
-- src/RSA.cpp: making a key pair and saving it, and loading what was saved. Files are a function from
-- names to contents, `none` where there is no file.
use kapua.Prelude.{
  ℕ, ◌≡◌, refl, Bool, true, false, not, ◌||◌, List, [], ◌∷◌, Option, none, some, if◌then◌else◌,
  arith,
}
use kapua.Text.{text_eq}
use kapua.Rsa.{
  KeyFile, unopened, malformed, holds, Loaded, load_rsa_key_pair, load_private, finish_load,
}

abbrev pub Files : Type 0
Files = List ℕ → Option (List ℕ)

-- OpenSSL: `EVP_PKEY_keygen_init`, `EVP_PKEY_CTX_set_rsa_keygen_bits`, and `EVP_PKEY_keygen` with the
-- key that it makes.
pub record KeyGeneration : Type 0 where
  pub keygen_init : Bool
  pub set_rsa_keygen_bits : ℕ → Bool
  pub keygen : Option ℕ

-- OpenSSL: the results of the calls that write a key with what they leave in a new file, also where they
-- fail, and what the calls that read find there.
pub record Pem : Type 0 where
  pub write_pubkey : ℕ → Bool × List ℕ
  pub write_private_key : ℕ → Bool × List ℕ
  pub read_pubkey : List ℕ → Option ℕ
  pub read_private_key : List ℕ → Option ℕ

-- What the file system lets this process do with a file.
pub record Permissions : Type 0 where
  pub writable : List ℕ → Bool
  pub readable : List ℕ → Bool

abbrev pub replaced : List ℕ → List ℕ → Files → Files
replaced name contents files n = if text_eq name n then some contents else files n

-- The key of `EVP_PKEY_keygen` behind the two calls before it.
unfoldable pub generated : KeyGeneration → ℕ → Option ℕ
generated g bits = if not g.keygen_init || not (g.set_rsa_keygen_bits bits) then none else g.keygen

-- What saving a key returns, and the files as it leaves them. The results of the calls that write a
-- key are not looked at.
unfoldable pub save : Pem → Permissions → List ℕ → List ℕ → ℕ → Files → Bool × Files
save pem may public_name private_name key files =
    let (public_written, public_contents) = pem.write_pubkey key in
    let (private_written, private_contents) = pem.write_private_key key in
    let with_public = replaced public_name public_contents files in
    if not (may.writable public_name)
    then (false, files)
    else if not (may.writable private_name)
    then (false, with_public)
    else (true, replaced private_name private_contents with_public)

unfoldable pub generate_rsa_key_pair :
    KeyGeneration → Pem → Permissions → List ℕ → List ℕ → ℕ → Files → Bool × Files
unfolding generated save
generate_rsa_key_pair g pem may public_name private_name bits files = elim (generated g bits) [
  | none ↦ (false, files)
  | some key ↦ save pem may public_name private_name key files
]

-- A file as `load_rsa_key_pair` finds it.
unfoldable pub key_file : Permissions → (List ℕ → Option ℕ) → List ℕ → Files → KeyFile
key_file may read name files = if not (may.readable name) then unopened else elim (files name) [
  | none ↦ unopened
  | some contents ↦ elim (read contents) [ none ↦ malformed | some key ↦ holds key ]
]

unfoldable pub load_saved : Pem → Permissions → List ℕ → List ℕ → Files → Loaded
unfolding key_file
load_saved pem may public_name private_name files =
    load_rsa_key_pair (key_file may pem.read_pubkey public_name files)
      (key_file may pem.read_private_key private_name files)

-- What OpenSSL documents: a key that was written, as the result of the call says, is read back, a public one
-- as the public half.
pub record IsPem (public_half : ℕ → ℕ) (pem : Pem) : Type 0 where
  pub read-write_pubkey :
      (key : ℕ)
      → (pem.write_pubkey key).0 ≡ true
      → pem.read_pubkey (pem.write_pubkey key).1 ≡ some (public_half key)
  pub read-write_private_key :
      (key : ℕ)
      → (pem.write_private_key key).0 ≡ true
      → pem.read_private_key (pem.write_private_key key).1 ≡ some key

text_eq_refl : (s : List ℕ) → text_eq s s ≡ true
text_eq_refl [] = refl
text_eq_refl (c ∷ s) = ground (arith, text_eq_refl s)

text_eq_sym : (s t : List ℕ) → text_eq s t ≡ text_eq t s
text_eq_sym [] [] = refl
text_eq_sym [] (d ∷ t) = refl
text_eq_sym (c ∷ s) [] = refl
text_eq_sym (c ∷ s) (d ∷ t) = ground (arith, text_eq_sym s t)

key_file-holds :
    (may : Permissions) (read : List ℕ → Option ℕ) (name contents : List ℕ) (key : ℕ)
    (files : Files)
    → may.readable name ≡ true
    → files name ≡ some contents
    → read contents ≡ some key
    → key_file may read name files ≡ holds key
unfolding key_file
key_file-holds may read name contents key files r f k = rw (key_file, r, f, k) refl

loaded_both :
    (public_file private_file : KeyFile) (public private : ℕ)
    → public_file ≡ holds public
    → private_file ≡ holds private
    → load_rsa_key_pair public_file private_file ≡ record {
      success = true;
      pair = record { public_key = some public; private_key = some private };
      freed = [];
    }
unfolding load_rsa_key_pair load_private finish_load
loaded_both public_file private_file public private e f = rw (e, f) refl

-- A key that was saved has replaced both files.
saved_both :
    (pem : Pem) (may : Permissions) (public_name private_name : List ℕ) (key : ℕ) (files : Files)
    → (save pem may public_name private_name key files).0 ≡ true
    → save pem may public_name private_name key files ≡ (
      true,
      replaced private_name
          ((pem.write_private_key key).1)
          (replaced public_name ((pem.write_pubkey key).1) files),
    )
unfolding save
saved_both pem may public_name private_name key files h = ground (arith, h)

generate_saves :
    (g : KeyGeneration) (pem : Pem) (may : Permissions) (public_name private_name : List ℕ)
    (bits key : ℕ) (files : Files)
    → generated g bits ≡ some key
    → generate_rsa_key_pair g pem may public_name private_name bits files
      ≡ save pem may public_name private_name key files
unfolding generate_rsa_key_pair
generate_saves g pem may public_name private_name bits key files made =
    rw (generate_rsa_key_pair, made) refl

module _ (public_half : ℕ → ℕ) (pem : Pem) (is_pem : IsPem public_half pem) (g : KeyGeneration)
    (may : Permissions) (public_name private_name : List ℕ) (bits key : ℕ) (files : Files)
    (made : generated g bits ≡ some key) where
  -- After `generate_rsa_key_pair` made a key and returned true, with two names and both files readable,
  -- and where the two calls that write the key succeeded, whose results it does not look at,
  -- `load_rsa_key_pair` at the same names succeeds and gives the public half of the key that was made and
  -- that key, and frees nothing. A key that OpenSSL has written is read back.
  pub load_saved-generate_rsa_key_pair :
      text_eq public_name private_name ≡ false
      → may.readable public_name ≡ true
      → may.readable private_name ≡ true
      → (pem.write_pubkey key).0 ≡ true
      → (pem.write_private_key key).0 ≡ true
      → (generate_rsa_key_pair g pem may public_name private_name bits files).0 ≡ true
      → load_saved pem may public_name private_name
          ((generate_rsa_key_pair g pem may public_name private_name bits files).1)
        ≡ record {
          success = true;
          pair = record { public_key = some (public_half key); private_key = some key };
          freed = [];
        }
  unfolding load_saved
  load_saved-generate_rsa_key_pair differ r s w v h =
      let files' : Files =
        replaced private_name ((pem.write_private_key key).1)
          (replaced public_name ((pem.write_pubkey key).1) files) in
      let e = generate_saves g pem may public_name private_name bits key files made in
      let kept = saved_both pem may public_name private_name key files (rw (← e) h) in
      rw (e, kept)
        (loaded_both _ _ (public_half key) key
          (key_file-holds may pem.read_pubkey public_name ((pem.write_pubkey key).1)
            (public_half key) files' r
            (rw (text_eq_sym private_name public_name, differ, text_eq_refl public_name) refl)
            (is_pem.read-write_pubkey key w))
          (key_file-holds may pem.read_private_key private_name ((pem.write_private_key key).1) key
            files' s (rw (text_eq_refl private_name) refl) (is_pem.read-write_private_key key v)))
