-- ===== src/UdpNetwork/Orderly.antt =====
-- src/UDPNetwork.cpp: what a packet and this node's keys need for `_process_packet` to handle the packet,
-- and the calls on keys that then succeed.
use kapua.Prelude.{
  ℕ, ◌≤◌, ◌≡◌, refl, true, false, List, Option, none, some, inl, inr, ltb, leb, ◌==◌, length, take,
  arith, Bool-cases, Option-cases,
}
use kapua.Prelude.Bytes.{overwrite}
use kapua.Prelude.Results.{ok, IsOk}
use kapua.OpenSsl.{OpenSsl, IsSized}
use kapua.Protocol.{Packet, public_key_reply, type_of, write_public_key, max_data_size}
use kapua.Rsa.{aes_key_size, encrypt_aes_context, decrypt_aes_context}
use kapua.UdpNetwork.State.{System, Network}

-- This node's own public key, whose encoding fits a packet.
pub record HasOwnKey (o : OpenSsl) (net : Network) : Type 0 where
  pub public : ℕ
  pub der : List ℕ
  pub key : net.core.keys.public_key ≡ some public
  pub sized : o.i2d_length public ≡ some (length der)
  pub encoded : o.i2d public ≡ some der
  pub encodes : 1 ≤ length der
  pub fits : length der ≤ max_data_size

-- A packet whose length is within its data: where it is a PublicKeyReply, with a key that OpenSSL
-- reads, and where the data decrypts, to no more than a session key.
pub record Orderly (o : OpenSsl) (sys : System) (pkt : Packet) : Type 0 where
  pub array : length pkt.bytes ≡ max_data_size
  pub counted : pkt.size ≤ max_data_size
  pub readable :
      type_of pkt.type_id ≡ public_key_reply
      → (key : ℕ) × (o.d2i (take pkt.size pkt.bytes) ≡ some key)
  pub no_longer :
      (key : ℕ) (text : List ℕ)
      → o.pkey_decrypt key sys.raw_len (take pkt.size pkt.bytes) ≡ some text
      → length text ≤ aes_key_size

pub written :
    (o : OpenSsl) (net : Network) (p : Packet) (own : HasOwnKey o net)
    → write_public_key o net.core.keys.public_key p
      ≡ ok (record p { size = length own.der; bytes = overwrite own.der p.bytes })
unfolding write_public_key
written o net p own =
    let some_bytes : leb (length own.der) 0 ≡ false = ground (arith, own.encodes) in
    let within : ltb max_data_size (length own.der) ≡ false = ground (arith, own.fits) in
    let same : (length own.der == length own.der) ≡ true = ground arith in
    rw (own.key, own.sized, some_bytes, within, own.encoded, within, same, write_public_key)

pub encrypt_aes_context-IsOk :
    (o : OpenSsl) (seed key : ℕ) (context : List ℕ)
    → IsSized o
    → length context ≡ aes_key_size
    → IsOk (encrypt_aes_context o seed context (some key) max_data_size)
unfolding encrypt_aes_context
encrypt_aes_context-IsOk o seed key context sized l = elim (Bool-cases (o.pkey_ctx_new key)) [
  | inr c ↦ (none, rw c)
  | inl c ↦ elim (Bool-cases (o.pkey_encrypt_init key)) [
    | inr b ↦ (none, rw (c, b))
    | inl b ↦ elim (Option-cases (o.pkey_encrypted_size key aes_key_size)) [
      | inl s ↦ (none, rw (c, b, s))
      | inr (n, s) ↦ elim (Bool-cases (ltb max_data_size n)) [
        | inl f ↦ (none, rw (c, b, s, f))
        | inr f ↦ elim (Option-cases (o.pkey_encrypt seed key context)) [
          | inl e ↦ (none, rw (c, b, s, f, e))
          | inr (out, e) ↦
              let within : ltb max_data_size (length out) ≡ false =
                ground (arith, f, sized.enough seed key aes_key_size n context out s e l) in
              (some out, rw (c, b, s, f, e, within))
        ]
      ]
    ]
  ]
]

pub decrypt_aes_context-IsOk :
    (o : OpenSsl) (sys : System) (pkt : Packet) (context : List ℕ) (key : Option ℕ)
    → Orderly o sys pkt
    → IsOk (decrypt_aes_context o context key sys.raw_len pkt.bytes pkt.size)
unfolding decrypt_aes_context
decrypt_aes_context-IsOk o sys pkt context none orderly = ((false, context), refl)
decrypt_aes_context-IsOk o sys pkt context (some key) orderly =
    elim (Bool-cases (o.pkey_ctx_new key)) [
      | inr c ↦ ((false, context), rw c)
      | inl c ↦ elim (Bool-cases (o.pkey_decrypt_init key)) [
        | inr b ↦ ((false, context), rw (c, b))
        | inl b ↦
            let inside : ltb (length pkt.bytes) pkt.size ≡ false =
              ground (arith, orderly.array, orderly.counted) in
            elim (Option-cases (o.pkey_decrypt key sys.raw_len (take pkt.size pkt.bytes))) [
              | inl e ↦ ((false, context), rw (c, b, inside, e))
              | inr (text, e) ↦
                  let short : ltb aes_key_size (length text) ≡ false =
                    ground (arith, orderly.no_longer key text e) in
                  (
                    (length text == aes_key_size, overwrite text context),
                    rw (c, b, inside, e, short),
                  )
            ]
      ]
    ]
