-- ===== src/Rsa/KeyFiles.antt =====
-- src/RSA.cpp: what `load_rsa_key_pair` leaves, for every pair of key files.
use kapua.Prelude.{ℕ, ◌≡◌, refl, Bool, true, false, ◌&&◌, List, [], ◌++◌, none, if◌then◌else◌}
use kapua.Rsa.{
  KeyFile, unopened, malformed, holds, key_in, is_open, Loaded, to_free, finish_load, load_private,
  load_rsa_key_pair,
}

abbrev pub has_key : KeyFile → Bool
has_key (holds key) = true
has_key _ = false

abbrev pub held : Loaded → List ℕ
held l = to_free l.pair.public_key ++ to_free l.pair.private_key

-- Loading succeeds exactly when the public key's file can be opened and the private key's file holds a
-- key, so also when the public key's file holds none. Every key that is read is either freed or left in
-- the pair, once; the keys are freed exactly when a file cannot be opened, and otherwise the pair keeps
-- them, so also on the failure that the private key's file holds no key.
pub load_rsa_key_pair_outcome :
    (public private : KeyFile)
    → let l = load_rsa_key_pair public private in
      (l.success ≡ (is_open public && has_key private))
      × (l.freed ++ held l ≡ to_free (key_in public) ++ to_free (key_in private))
      × (l.freed ≡ (
          if is_open public && is_open private
          then []
          else to_free (key_in public) ++ to_free (key_in private)))
      × (l.pair.private_key ≡ (if is_open public then key_in private else none))
unfolding load_rsa_key_pair load_private finish_load
load_rsa_key_pair_outcome unopened unopened = (refl, refl, refl, refl)
load_rsa_key_pair_outcome unopened malformed = (refl, refl, refl, refl)
load_rsa_key_pair_outcome unopened (holds k) = (refl, refl, refl, refl)
load_rsa_key_pair_outcome malformed unopened = (refl, refl, refl, refl)
load_rsa_key_pair_outcome malformed malformed = (refl, refl, refl, refl)
load_rsa_key_pair_outcome malformed (holds k) = (refl, refl, refl, refl)
load_rsa_key_pair_outcome (holds j) unopened = (refl, refl, refl, refl)
load_rsa_key_pair_outcome (holds j) malformed = (refl, refl, refl, refl)
load_rsa_key_pair_outcome (holds j) (holds k) = (refl, refl, refl, refl)
