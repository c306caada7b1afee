-- ===== src/UdpNetwork/Progress.antt =====
-- src/UDPNetwork.cpp: packets that `_process_packet` handles to the end.
use kapua.Prelude.{
  ℕ, ◌≤◌, ◌≡◌, refl, ap, ◌∙◌, Bool, true, false, List, Option, none, some, inl, inr, ltb, length,
  take, arith, Bool-cases,
}
use kapua.Prelude.Bytes.{overwrite}
use kapua.Prelude.Maps.{find}
use kapua.Prelude.Results.{ok, IsOk}
use kapua.OpenSsl.{OpenSsl, IsCbc, IsSized}
use kapua.Node.{Node, key_exchange, handshake, check_encryption, connected, update_last_contact}
use kapua.Core.{deref}
use kapua.Protocol.{
  Packet, PacketType, ping, public_key_request, public_key_reply, encryption_context, ready,
  discovery, other, new_to, type_of, read_public_key, max_data_size,
}
use kapua.Rsa.{aes_key_size}
use kapua.Rsa.SessionKey.{encrypted_within}
use kapua.UdpNetwork.State.{System, Network, put_node}
use kapua.UdpNetwork.Send.{send_plain-IsOk, send-IsOk}
use kapua.UdpNetwork.Process.{
  is_in, session_packet, send_session_key, on_public_key_request, on_public_key_reply,
  confirm_session_key, on_encryption_context, on_ready, handle, process_packet,
}
use kapua.UdpNetwork.Agreement.{answer_sent}
use kapua.UdpNetwork.Orderly.{
  HasOwnKey, Orderly, written, encrypt_aes_context-IsOk, decrypt_aes_context-IsOk,
}
use kapua.UdpNetwork.Transitions.{in_lem}

module _ (o : OpenSsl) (sys : System) (p : ℕ) (n : Node) (pkt : Packet) (net : Network) where
  request_handled : HasOwnKey o net → IsOk (on_public_key_request o sys p n net)
  unfolding on_public_key_request
  request_handled own =
      let raw_reply = new_to public_key_reply net.core.my_id n.id sys.raw_packet in
      let reply = record raw_reply {
        size = length own.der;
        bytes = overwrite own.der raw_reply.bytes;
      } in
      let m = record n { state = key_exchange } in
      let (after, sent, _) =
        answer_sent o sys p m reply net
          (send_plain-IsOk o sys (some m) reply n.addr (λ k e. ground arith) own.fits) in
      (after, rw (written o net raw_reply own, on_public_key_request) sent)

  session_key_sent :
      (m : Node) (bytes : Option (List ℕ))
      → m.state ≡ key_exchange
      → ((out : List ℕ) → bytes ≡ some out → length out ≤ max_data_size)
      → IsOk (send_session_key o sys p m bytes net)
  unfolding send_session_key session_packet
  session_key_sent m none s short = (put_node p m net, refl)
  session_key_sent m (some out) s short =
      let k = record m { state = handshake } in
      let (after, sent, _) =
        answer_sent o sys p k (session_packet sys net.core.my_id m.id out) net (
          send_plain-IsOk o sys (some k) (session_packet sys net.core.my_id m.id out) m.addr
            (λ j e. ground arith) (short out refl)) in
      (after, sent)

  pub reply_handled :
      IsSized o
      → length sys.session_key ≡ aes_key_size
      → (key : ℕ) → o.d2i (take pkt.size pkt.bytes) ≡ some key
      → pkt.size ≤ max_data_size
      → IsOk (on_public_key_reply o sys p n pkt net)
  unfolding on_public_key_reply read_public_key
  reply_handled sized l key readable counted = elim (Bool-cases (is_in n.state key_exchange)) [
    | inr s ↦ (net, rw s)
    | inl s ↦
        let read : read_public_key o pkt ≡ ok key =
          let within : ltb max_data_size pkt.size ≡ false = ground (arith, counted) in
          rw (within, readable, read_public_key) in
        let (bytes, encrypts) = encrypt_aes_context-IsOk o sys.seed key sys.session_key sized l in
        let m = record n {
          keys = record n.keys { public_key = some key };
          aes_context_tx = sys.session_key;
        } in
        let (after, sent) = session_key_sent m bytes (in_lem n.state key_exchange s) λ out e.
          (encrypted_within o sys.seed key max_data_size sys.session_key out
            (encrypts ∙ ap ok e)).1 in
        (after, rw (s, read, encrypts, on_public_key_reply) sent)
  ]

  context_confirmed :
      IsCbc o → (opened : Bool × List ℕ) → IsOk (confirm_session_key o sys p n opened net)
  unfolding confirm_session_key new_to
  context_confirmed cbc (false, rx) = (put_node p (record n { aes_context_rx = rx }) net, refl)
  context_confirmed cbc (true, rx) =
      let k = record n { aes_context_rx = rx; state = check_encryption } in
      let reply = record (new_to ready net.core.my_id n.id sys.raw_packet) { size = 0 } in
      let (after, sent, _) =
        answer_sent o sys p k reply net (send-IsOk o sys (some k) reply n.addr cbc (omega arith)) in
      (after, sent)

  context_handled : IsCbc o → Orderly o sys pkt → IsOk (on_encryption_context o sys p n pkt net)
  unfolding on_encryption_context
  context_handled cbc orderly = elim (Bool-cases (is_in n.state handshake)) [
    | inr s ↦ (net, rw s)
    | inl s ↦
        let (opened, opens) =
          decrypt_aes_context-IsOk o sys pkt n.aes_context_rx net.core.keys.private_key orderly in
        let (after, sent) = context_confirmed cbc opened in
        (after, rw (s, opens, on_encryption_context) sent)
  ]

  ready_handled : IsOk (on_ready p n net)
  unfolding on_ready
  ready_handled = elim (Bool-cases (is_in n.state check_encryption)) [
    | inr s ↦ (net, rw s)
    | inl s ↦ (put_node p (record n { state = connected }) net, rw s)
  ]

  handled :
      (t : PacketType)
      → type_of pkt.type_id ≡ t
      → IsCbc o
      → IsSized o
      → HasOwnKey o net
      → Orderly o sys pkt
      → length sys.session_key ≡ aes_key_size
      → IsOk (handle o sys t p n pkt net)
  unfolding handle
  handled public_key_request e cbc sized own orderly l = request_handled own
  handled public_key_reply e cbc sized own orderly l =
      let (key, readable) = orderly.readable e in reply_handled sized l key readable orderly.counted
  handled encryption_context e cbc sized own orderly l = context_handled cbc orderly
  handled ready e cbc sized own orderly l = ready_handled
  handled ping e cbc sized own orderly l = (net, refl)
  handled discovery e cbc sized own orderly l = (net, refl)
  handled (other k) e cbc sized own orderly l = (net, refl)

-- An orderly packet of any type, from a node that lives in any state, is handled to the end without an
-- exception or an access outside a buffer: where the cipher is in CBC mode, OpenSSL keeps to the sizes
-- that it gives, random session keys have 32 bytes, and this node has a public key that fits a packet.
pub process_packet-IsOk :
    (o : OpenSsl) (sys : System) (p : ℕ) (n : Node) (pkt : Packet) (net : Network)
    → IsCbc o
    → IsSized o
    → HasOwnKey o net
    → Orderly o sys pkt
    → length sys.session_key ≡ aes_key_size
    → find p net.core.heap ≡ some n
    → IsOk (process_packet o sys (some p) pkt net)
unfolding process_packet put_node deref
process_packet-IsOk o sys p n pkt net cbc sized own orderly l lives =
    let m = update_last_contact sys.now n in
    let keyed : HasOwnKey o (put_node p m net) = record {
      public = own.public;
      der = own.der;
      key = own.key;
      sized = own.sized;
      encoded = own.encoded;
      encodes = own.encodes;
      fits = own.fits;
    } in
    let (after, done) =
      handled o sys p m pkt (put_node p m net) (type_of pkt.type_id) refl cbc sized keyed orderly
        l in
    let live : deref p net.core ≡ ok n = rw (lives, deref) in
    (after, rw (live, process_packet) done)
