-- ===== src/UdpNetwork/Meeting/Offers.antt =====
-- src/UDPNetwork.cpp: the packets that one side of the handshake sends are what the other side needs.
use kapua.Prelude.{
  ℕ, ◌≤◌, ◌<◌, ◌^◌, ◌≡◌, ◌≢◌, refl, true, false, ltb, List, some, length, take, arith,
}
use kapua.Prelude.Bytes.{length-overwrite}
use kapua.Prelude.Results.{ok}
use kapua.OpenSsl.{OpenSsl, IsPair}
use kapua.Protocol.{
  public_key_request, public_key_reply, encryption_context, ready, type_of, new_to, max_data_size,
}
use kapua.Rsa.{aes_key_size, encrypt_aes_context, decrypt_aes_context}
use kapua.Rsa.SessionKey.{encrypted_within, decrypt_aes_context-encrypt_aes_context}
use kapua.UdpNetwork.State.{System, Network}
use kapua.UdpNetwork.Aes.{Encrypts}
use kapua.UdpNetwork.Send.{counted}
use kapua.UdpNetwork.Orderly.{HasOwnKey}
use kapua.UdpNetwork.Meeting.Carrier.{
  arrived, carrier, new_to-Proper, carrier-Proper, payload_arrives, legible_arrives,
}
use kapua.UdpNetwork.Meeting.Course.{Serves, Offer}

-- A node with its own pair of keys, of an identity that fits a packet; OpenSSL encrypts a session key with the
-- public one, to no more than a packet's data.
pub record Party (o : OpenSsl) (net : Network) : Type 0 where
  pub own : HasOwnKey o net
  pub private : ℕ
  pub pair : IsPair o own.public private
  pub key : net.core.keys.private_key ≡ some private
  pub legible : o.d2i own.der ≡ some own.public
  pub id_fits : net.core.my_id < 256 ^ 8
  pub usable : o.pkey_ctx_new own.public ≡ true
  pub initialises : o.pkey_encrypt_init own.public ≡ true
  pub size : ℕ
  pub wrapped_size : o.pkey_encrypted_size own.public aes_key_size ≡ some size
  pub size_fits : size ≤ max_data_size
  pub encrypts :
      (seed : ℕ) (key : List ℕ)
      → length key ≡ aes_key_size
      → (out : List ℕ) × (o.pkey_encrypt seed own.public key ≡ some out) × (length out ≤ size)

-- OpenSSL's calls for encryption with a session key and a vector of the right lengths succeed.
pub record IsWilling (o : OpenSsl) : Type 0 where
  pub encrypts :
      (key iv text : List ℕ)
      → length key ≡ aes_key_size
      → length iv ≡ 32
      → (update : List ℕ) × (final : List ℕ) × Encrypts o key iv text update final

wrapped :
    (o : OpenSsl) (net : Network) (party : Party o net) (seed : ℕ) (key : List ℕ)
    → length key ≡ aes_key_size
    → (secret : List ℕ) × (encrypt_aes_context o seed key (some party.own.public) max_data_size
        ≡ ok (some secret))
unfolding encrypt_aes_context
wrapped o net party seed key size =
    let (out, encrypts, short) = party.encrypts seed key size in
    let fits : ltb max_data_size party.size ≡ false = ground (arith, party.size_fits) in
    let within : ltb max_data_size (length out) ≡ false = ground (arith, party.size_fits, short) in
    (out, rw (party.usable, party.initialises, party.wrapped_size, fits, encrypts, within) refl)

-- What OpenSSL makes of the session key and of the Ready of a node that is asked for both.
pub record Sealed (o : OpenSsl) (t : ℕ → System) (from to public : ℕ) : Type 0 where
  pub secret : List ℕ
  pub update : List ℕ
  pub final : List ℕ
  pub wraps :
      encrypt_aes_context o (t 1).seed (t 1).session_key (some public) max_data_size
      ≡ ok (some secret)
  pub encrypts :
      Encrypts o
        (t 1).session_key
        (t 2).iv
        (counted (new_to ready from to (t 2).raw_packet))
        update
        final

pub sealed :
    (o : OpenSsl) (t : ℕ → System) (from to : ℕ) (net : Network) (party : Party o net)
    → IsWilling o
    → ((i : ℕ) → Serves (t i))
    → Sealed o t from to party.own.public
sealed o t from to net party willing serves =
    let (secret, wraps) = wrapped o net party (t 1).seed (t 1).session_key (serves 1).key_size in
    let (update, final, encrypts) =
      willing.encrypts (t 1).session_key (t 2).iv (counted (new_to ready from to (t 2).raw_packet))
        (serves 1).key_size (serves 2).vector in
    record { secret = secret; update = update; final = final; wraps = wraps; encrypts = encrypts }

module _ (o : OpenSsl) (net base : Network) (party : Party o net) (other : Party o base)
    (first : System) (t : ℕ → System) (secret update final : List ℕ) where
  -- From the node of `net` to that of `base`: the request was made at the first contact.
  unfoldable pub offer :
      Serves first
      → ((i : ℕ) → Serves (t i))
      → net.core.my_id ≢ base.core.my_id
      → encrypt_aes_context o (t 1).seed (t 1).session_key (some other.own.public) max_data_size
        ≡ ok (some secret)
      → Encrypts o
          (t 1).session_key
          (t 2).iv
          (counted (new_to ready net.core.my_id base.core.my_id (t 2).raw_packet))
          update
          final
      → Offer o base party.own.public (t 1).session_key
  unfolding new_to type_of
  offer meets serves differ wraps encrypts =
      let from = net.core.my_id in
      let to = base.core.my_id in
      let short =
        (encrypted_within o (t 1).seed other.own.public max_data_size (t 1).session_key secret
          wraps).1 in
      let context = carrier encryption_context from to (t 1).raw_packet secret in
      let opens : (old rest : List ℕ) (raw_len : ℕ)
          → other.pair.key_size ≤ raw_len
          → length old ≡ aes_key_size
          → length rest ≡ max_data_size
          → decrypt_aes_context o old base.core.keys.private_key raw_len
              (arrived context rest).bytes (length secret)
            ≡ ok (true, (t 1).session_key) =
        λ old rest raw_len told l room. rw other.key (
          decrypt_aes_context-encrypt_aes_context o (t 1).seed other.own.public other.private
            max_data_size raw_len (t 1).session_key old secret (arrived context rest).bytes
            other.pair told (serves 1).key_size l wraps
            (omega (arith, short, room, length-overwrite (take (length secret) context.bytes) rest))
            (payload_arrives encryption_context from to (t 1).raw_packet secret rest (serves 1).wire
              short room)) in
      record {
        request = new_to public_key_request from to first.raw_packet;
        reply = carrier public_key_reply from to (t 0).raw_packet party.own.der;
        context = context;
        confirmation = new_to ready from to (t 2).raw_packet;
        iv = (t 2).iv;
        update = update;
        final = final;
        request_type = refl;
        reply_type = refl;
        context_type = refl;
        confirmation_type = refl;
        request_proper =
            new_to-Proper public_key_request to from to first.raw_packet meets.wire (omega arith)
              party.id_fits other.id_fits differ;
        reply_proper =
            carrier-Proper public_key_reply to from to (t 0).raw_packet party.own.der
              (serves 0).wire (omega arith) party.id_fits other.id_fits party.own.fits differ;
        context_proper =
            carrier-Proper encryption_context to from to (t 1).raw_packet secret (serves 1).wire
              (omega arith) party.id_fits other.id_fits short differ;
        confirmation_proper =
            new_to-Proper ready to from to (t 2).raw_packet (serves 2).wire (omega arith)
              party.id_fits other.id_fits differ;
        short = omega arith;
        legible = λ rest room.
            legible_arrives o public_key_reply from to party.own.public (t 0).raw_packet
              party.own.der rest (serves 0).wire party.own.fits room party.legible;
        least = other.pair.key_size;
        opens = opens;
        encrypts = encrypts;
        vector = (serves 2).vector;
        hidden = (serves 2).hidden;
      }
