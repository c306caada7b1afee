-- ===== src/OpenSsl/Toy.antt =====
-- A concrete stand-in for OpenSSL, at which the laws hold that the theorems ask of it: the cipher puts
-- its padding in front of the text, and the public key encrypts to the text itself.
use kapua.Prelude.{
  ℕ, ◌+◌, ◌-◌, ◌*◌, ◌/◌, ◌%◌, ◌≤◌, ◌≡◌, refl, sym, ap, ◌∙◌, true, List, [], ◌∷◌, ◌++◌, Option, none,
  some, length, take, drop, replicate, arith, length-append, length-take, length-drop,
  length-replicate, take-append-drop, drop_exact,
}
use kapua.OpenSsl.{OpenSsl, IsCbc, Inverts, IsPair, IsSized, IsBounded}

-- The number of bytes that fill up the last block, 1 to 16.
abbrev missing : List ℕ → ℕ
missing text = 16 - length text % 16

abbrev padding : ℕ → List ℕ
padding n = n ∷ replicate (n - 1) 0

abbrev padded : List ℕ → List ℕ
padded text = padding (missing text) ++ text

abbrev whole_blocks : List ℕ → ℕ
whole_blocks text = 16 * (length text / 16)

abbrev unpadded : List ℕ → List ℕ
unpadded [] = []
unpadded (n ∷ bs) = drop n (n ∷ bs)

abbrev der_key : List ℕ → Option ℕ
der_key (key ∷ []) = some key
der_key _ = none

abbrev pub toy : OpenSsl
toy = record {
  i2d_length = λ key. some 1;
  i2d = λ key. some (key ∷ []);
  d2i = der_key;
  pkey_ctx_new = λ key. true;
  pkey_encrypt_init = λ key. true;
  pkey_encrypted_size = λ key size. some size;
  pkey_encrypt = λ seed key text. some text;
  pkey_decrypt_init = λ key. true;
  pkey_decrypt = λ key size input. some input;
  cipher_ctx_new = true;
  cipher_encrypt_init = λ key iv. true;
  cipher_encrypt_update = λ key iv text. some (take (whole_blocks text) (padded text));
  cipher_encrypt_final = λ key iv text. some (drop (whole_blocks text) (padded text));
  cipher_decrypt_init = λ key iv. true;
  cipher_decrypt_update = λ key iv text. some (unpadded text);
  cipher_decrypt_final = λ key iv text. some [];
}

length-padding : (n : ℕ) → 1 ≤ n → length (padding n) ≡ n
length-padding n h = omega (arith, length-replicate {A = ℕ} (n - 1) 0)

length-padded : (text : List ℕ) → length (padded text) ≡ whole_blocks text + 16
length-padded text = omega (
  arith,
  length-append (padding (missing text)) text,
  length-padding (missing text) (omega arith),
)

unpadded-padded : (text : List ℕ) → unpadded (padded text) ≡ text
unpadded-padded text =
    drop_exact (missing text) (padding (missing text)) text
      (sym (length-padding (missing text) (omega arith)))

pub toy-IsCbc : IsCbc toy
toy-IsCbc = record {
  update_length = λ key iv text out e.
      let same : take (whole_blocks text) (padded text) ≡ out = cc in
      omega
        (arith, ap length same, length-take (whole_blocks text) (padded text), length-padded text);
  final_length = λ key iv text out e.
      let same : drop (whole_blocks text) (padded text) ≡ out = cc in
      omega
        (arith, ap length same, length-drop (whole_blocks text) (padded text), length-padded text);
}

append_nil : (xs : List ℕ) → xs ++ [] ≡ xs
append_nil [] = refl
append_nil (x ∷ xs) = ap (λ l. x ∷ l) (append_nil xs)

length-unpadded-le : (text : List ℕ) → length (unpadded text) ≤ length text
length-unpadded-le [] = omega arith
length-unpadded-le (n ∷ bs) = omega (arith, length-drop n (n ∷ bs))

pub toy-IsBounded : IsBounded toy
toy-IsBounded = record {
  update_bound = λ key iv text out e.
      let same : unpadded text ≡ out = cc in omega (arith, ap length same, length-unpadded-le text);
  final_bound = λ key iv text out e. let same : [] ≡ out = cc in omega (arith, ap length same);
}

pub toy-Inverts : Inverts toy
toy-Inverts = record {
  accepts = λ key iv e. refl;
  text_back = λ key iv text update final e f.
      let begun : take (whole_blocks text) (padded text) ≡ update = cc in
      let ended : drop (whole_blocks text) (padded text) ≡ final = cc in
      let joined : update ++ final ≡ padded text =
        rw (← begun, ← ended) (take-append-drop (whole_blocks text) (padded text)) in
      (
        unpadded (update ++ final),
        [],
        refl,
        refl,
        append_nil (unpadded (update ++ final)) ∙ rw joined (unpadded-padded text),
      );
}

pub toy-IsSized : IsSized toy
toy-IsSized = record {
  enough = λ seed key size n text out e f l.
      let same : size ≡ n = cc in let whole : text ≡ out = cc in omega (arith, ap length whole);
}

abbrev pub toy_pair : (public private : ℕ) → IsPair toy public private
toy_pair public private = record {
  usable = refl;
  initialises = refl;
  key_size = 256;
  decrypts = λ seed size text out told e. sym e;
}
