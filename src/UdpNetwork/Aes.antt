-- ===== src/UdpNetwork/Aes.antt =====
-- src/UDPNetwork.cpp: `_aes_encrypt` and `_aes_decrypt`.
use kapua.Prelude.{
  ℕ, ◌+◌, ◌*◌, ◌/◌, ◌≤◌, ◌<◌, ◌≡◌, true, not, List, ◌++◌, Option, none, some, inl, inr, ltb, leb,
  if◌then◌else◌, length, take, drop, arith, Option-cases, Bool-cases, length-append, take-take,
  take_exact, drop_exact, sym, ap, ◌∙◌,
}
use kapua.Prelude.Results.{Result, ok, undefined, past_end, IsOk}
use kapua.OpenSsl.{OpenSsl, IsCbc, Inverts}
use kapua.Rsa.{aes_key_size}

-- The bytes written to a buffer of `capacity` bytes, the vector's 32 first; `none` where the method
-- returns false.
unfoldable pub aes_encrypt : OpenSsl → ℕ → List ℕ → List ℕ → List ℕ → Result (Option (List ℕ))
aes_encrypt o capacity key iv text =
    if not o.cipher_ctx_new
    then ok none
    else if not (o.cipher_encrypt_init key iv)
    then ok none
    else elim (o.cipher_encrypt_update key iv text) [
      | none ↦ ok none
      | some update ↦
          if ltb capacity (aes_key_size + length update)
          then undefined past_end
          else elim (o.cipher_encrypt_final key iv text) [
            | none ↦ ok none
            | some final ↦
                if ltb capacity (aes_key_size + length update + length final)
                then undefined past_end
                else ok (some (iv ++ (update ++ final)))
          ]
    ]

-- The plain text written to a buffer of `capacity` bytes, from `size` bytes of `bytes`; a size below
-- the vector's 32 wraps round to a huge one.
unfoldable pub aes_decrypt : OpenSsl → ℕ → List ℕ → List ℕ → ℕ → Result (Option (List ℕ))
aes_decrypt o capacity key bytes size =
    let iv = take aes_key_size bytes in
    let text = drop aes_key_size (take size bytes) in
    if not o.cipher_ctx_new
    then ok none
    else if not (o.cipher_decrypt_init key iv)
    then ok none
    else if ltb size aes_key_size
    then undefined past_end
    else if ltb (length bytes) size
    then undefined past_end
    else elim (o.cipher_decrypt_update key iv text) [
      | none ↦ ok none
      | some first ↦
          if ltb capacity (length first)
          then undefined past_end
          else elim (o.cipher_decrypt_final key iv text) [
            | none ↦ ok none
            | some last ↦
                if ltb capacity (length first + length last)
                then undefined past_end
                else ok (some (first ++ last))
          ]
    ]

-- The size of an encrypted message: the vector, and whole blocks with padding.
abbrev pub encrypted_size : ℕ → ℕ
encrypted_size n = aes_key_size + 16 * (n / 16 + 1)

module _ (o : OpenSsl) (key iv text update final : List ℕ) where
  -- The calls to OpenSSL succeed, with these two parts.
  pub record Encrypts : Type 0 where
    pub context : o.cipher_ctx_new ≡ true
    pub initialised : o.cipher_encrypt_init key iv ≡ true
    pub updated : o.cipher_encrypt_update key iv text ≡ some update
    pub finished : o.cipher_encrypt_final key iv text ≡ some final

-- With a cipher in CBC mode and a vector of 32 bytes, and where OpenSSL's calls succeed, a text of at
-- most 1407 bytes is encrypted into a buffer of 1450, to a message of 32 bytes more than its whole
-- blocks with padding; a longer text is written past the end of that buffer.
pub aes_encrypt_fits :
    (o : OpenSsl) (key iv text update final : List ℕ)
    → IsCbc o
    → Encrypts o key iv text update final
    → length iv ≡ aes_key_size
    → (length (iv ++ (update ++ final)) ≡ encrypted_size (length text))
      × (aes_encrypt o 1450 key iv text ≡ (
          if leb (length text) 1407
          then ok (some (iv ++ (update ++ final)))
          else undefined past_end))
unfolding aes_encrypt
aes_encrypt_fits o key iv text update final cbc e l =
    let u = cbc.update_length key iv text update e.updated in
    let f = cbc.final_length key iv text final e.finished in
    let whole = length-append iv (update ++ final) in
    let parts = length-append update final in
    (omega arith, rw (e.context, e.initialised, e.updated, e.finished, aes_encrypt) (ground arith))

-- Every message is longer than its text, by 33 bytes at least.
pub encrypted_size-gt : (n : ℕ) → n + 32 < encrypted_size n
encrypted_size-gt n = omega arith

-- A message that was encrypted with a key into a buffer of 1450 bytes, and stands at the beginning of
-- a memory, is decrypted with that key to the text, where the encryption and decryption calls of
-- OpenSSL invert one another and the vector has 32 bytes.
pub aes_decrypt-aes_encrypt :
    (o : OpenSsl) (key iv text update final memory : List ℕ)
    → IsCbc o
    → Inverts o
    → Encrypts o key iv text update final
    → length iv ≡ aes_key_size
    → length text ≤ 1407
    → encrypted_size (length text) ≤ length memory
    → take (encrypted_size (length text)) memory ≡ iv ++ (update ++ final)
    → aes_decrypt o 1450 key memory (encrypted_size (length text)) ≡ ok (some text)
unfolding aes_decrypt
aes_decrypt-aes_encrypt o key iv text update final memory cbc inverts e l short room begins =
    let (first, last, d, f, whole) =
      inverts.text_back key iv text update final e.updated e.finished in
    let size = encrypted_size (length text) in
    let vector : take aes_key_size memory ≡ iv =
      sym (take-take aes_key_size size memory (omega arith))
      ∙ ap (take aes_key_size) begins
      ∙ take_exact aes_key_size iv (update ++ final) (sym l) in
    let body : drop aes_key_size (take size memory) ≡ update ++ final =
      ap (drop aes_key_size) begins ∙ drop_exact aes_key_size iv (update ++ final) (sym l) in
    let parts : length first + length last ≡ length text =
      sym (length-append first last) ∙ ap length whole in
    let in_iv = take aes_key_size memory in
    let in_text = drop aes_key_size (take size memory) in
    let begun : o.cipher_decrypt_init key in_iv ≡ true =
      rw vector (inverts.accepts key iv e.initialised) in
    let updated : o.cipher_decrypt_update key in_iv in_text ≡ some first = rw (vector, body) d in
    let ended : o.cipher_decrypt_final key in_iv in_text ≡ some last = rw (vector, body) f in
    rw (e.context, begun, updated, ended, aes_decrypt) (ground (arith, whole))

pub aes_encrypt_fits_any :
    (o : OpenSsl) (key iv text update final : List ℕ)
    → IsCbc o
    → Encrypts o key iv text update final
    → length text ≤ 1407
    → aes_encrypt o 1450 key iv text ≡ ok (some (iv ++ (update ++ final)))
unfolding aes_encrypt
aes_encrypt_fits_any o key iv text update final cbc e h =
    let u = cbc.update_length key iv text update e.updated in
    let f = cbc.final_length key iv text final e.finished in
    rw (e.context, e.initialised, e.updated, e.finished, aes_encrypt) (ground arith)

-- Whatever OpenSSL answers, a text of at most 1407 bytes is encrypted inside the buffer.
pub aes_encrypt-IsOk :
    (o : OpenSsl) (key iv text : List ℕ)
    → IsCbc o
    → length text ≤ 1407
    → IsOk (aes_encrypt o 1450 key iv text)
unfolding aes_encrypt
aes_encrypt-IsOk o key iv text cbc h = elim (Bool-cases o.cipher_ctx_new) [
  | inr c ↦ (none, rw c)
  | inl c ↦ elim (Bool-cases (o.cipher_encrypt_init key iv)) [
    | inr b ↦ (none, rw (c, b))
    | inl b ↦ elim (Option-cases (o.cipher_encrypt_update key iv text)) [
      | inl u ↦ (none, rw (c, b, u))
      | inr (update, u) ↦ elim (Option-cases (o.cipher_encrypt_final key iv text)) [
        | inl f ↦ (none, rw (c, b, u, f) (ground (arith, cbc.update_length key iv text update u)))
        | inr (final, f) ↦ (
          some (iv ++ (update ++ final)),
          (aes_encrypt_fits_any o key iv text update final cbc
              (record { context = c; initialised = b; updated = u; finished = f }) h),
        )
      ]
    ]
  ]
]
