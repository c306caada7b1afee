-- ===== src/Rsa/SessionKey.antt =====
-- src/RSA.cpp: what `encrypt_aes_context` and `decrypt_aes_context` do to a session key.
use kapua.Prelude.{
  ℕ, ◌≤◌, ◌≡◌, sym, ◌∙◌, Bool, true, false, List, some, inl, inr, ltb, ◌==◌, length, take, arith,
  Option-cases,
}
use kapua.Prelude.Bytes.{overwrite, overwrite_whole, length-overwrite}
use kapua.Prelude.Results.{ok}
use kapua.OpenSsl.{OpenSsl, IsPair}
use kapua.Rsa.{aes_key_size, encrypt_aes_context, decrypt_aes_context}

-- Encryption that succeeds gives what OpenSSL encrypted, and that fits the caller's buffer.
pub encrypted_within :
    (o : OpenSsl) (seed key in_size : ℕ) (context out : List ℕ)
    → encrypt_aes_context o seed context (some key) in_size ≡ ok (some out)
    → (o.pkey_encrypt seed key context ≡ some out) × (length out ≤ in_size)
unfolding encrypt_aes_context
encrypted_within o seed key in_size context out h =
    elim (Option-cases (o.pkey_encrypted_size key aes_key_size)) [
      | inl e ↦ absurd (ground (arith, h, e))
      | inr (n, e) ↦ elim (Option-cases (o.pkey_encrypt seed key context)) [
        | inl f ↦ absurd (ground (arith, h, e, f))
        | inr (m, f) ↦ ground (arith, h, e, f)
      ]
    ]

-- What was encrypted with a public key, at the beginning of a buffer, is decrypted with the private key
-- of the pair to the same session key of 32 bytes, into a context of 32 bytes, where the caller's size
-- variable happens to hold at least the size of the private key.
pub decrypt_aes_context-encrypt_aes_context :
    (o : OpenSsl) (seed public private in_size out_size : ℕ) (context old out buffer : List ℕ)
    (pair : IsPair o public private)
    → pair.key_size ≤ out_size
    → length context ≡ aes_key_size
    → length old ≡ aes_key_size
    → encrypt_aes_context o seed context (some public) in_size ≡ ok (some out)
    → length out ≤ length buffer
    → take (length out) buffer ≡ out
    → decrypt_aes_context o old (some private) out_size buffer (length out) ≡ ok (true, context)
unfolding decrypt_aes_context
decrypt_aes_context-encrypt_aes_context o seed public private in_size out_size context old out
      buffer pair told l k h room begins =
    let text =
      pair.decrypts seed out_size context out told
        (encrypted_within o seed public in_size context out h).0 in
    let inside : ltb (length buffer) (length out) ≡ false = ground (arith, room) in
    rw (pair.usable, pair.initialises, inside, begins, text, decrypt_aes_context)
      (ground (arith, overwrite_whole context old (l ∙ sym k)))

-- Decryption that reaches OpenSSL, gets a text from it and returns has been given no more bytes than the
-- buffer holds and no more than 32 of text, and leaves a context of 32 bytes: it returns true exactly
-- for 32 bytes of text, and the text is in the beginning of the context in either case.
pub decrypt_aes_context_context :
    (o : OpenSsl) (key out_size in_size : ℕ) (context input text after : List ℕ) (success : Bool)
    → length context ≡ aes_key_size
    → o.pkey_ctx_new key ≡ true
    → o.pkey_decrypt_init key ≡ true
    → o.pkey_decrypt key out_size (take in_size input) ≡ some text
    → decrypt_aes_context o context (some key) out_size input in_size ≡ ok (success, after)
    → (in_size ≤ length input)
      × (length after ≡ aes_key_size)
      × (length text ≤ aes_key_size)
      × (success ≡ (length text == aes_key_size))
      × (after ≡ overwrite text context)
unfolding decrypt_aes_context
decrypt_aes_context_context o key out_size in_size context input text after success l c d e h =
    ground (arith, length-overwrite text context)
