-- ===== src/UdpNetwork/Agreement.antt =====
-- src/UDPNetwork.cpp and src/RSA.cpp together: the two sides of the exchange of a session key.
use kapua.Prelude.{◌≤◌, ℕ, ◌≡◌, refl, sym, ◌∙◌, true, List, ◌++◌, some, length, take, arith}
use kapua.Prelude.Bytes.{overwrite, take-overwrite, length-overwrite}
use kapua.Prelude.Maps.{find, find-assign}
use kapua.Prelude.Results.{ok, IsOk}
use kapua.OpenSsl.{OpenSsl, IsPair, IsCbc}
use kapua.Node.{Node, key_exchange, handshake, check_encryption}
use kapua.Protocol.{
  Packet, ready, public_key_reply, encryption_context, new_to, read_public_key, max_data_size,
}
use kapua.Rsa.{aes_key_size, encrypt_aes_context, decrypt_aes_context}
use kapua.Rsa.SessionKey.{encrypted_within, decrypt_aes_context-encrypt_aes_context}
use kapua.UdpNetwork.State.{System, Network, put_node}
use kapua.UdpNetwork.Send.{send, send_plain-IsOk, send-IsOk}
use kapua.UdpNetwork.Process.{
  answer, session_packet, send_session_key, on_public_key_reply, confirm_session_key,
  on_encryption_context, handle,
}

-- An answer that can be sent leaves the node as it was given.
pub answer_sent :
    (o : OpenSsl) (sys : System) (p : ℕ) (n : Node) (reply : Packet) (net : Network)
    → IsOk (send o sys (some n) reply n.addr)
    → (after : Network) × (answer o sys p n reply net ≡ ok after)
      × (find p after.core.heap ≡ some n)
unfolding answer put_node
answer_sent o sys p n reply net (r, e) = (
  record (put_node p n net) { sent = net.sent ++ r.1 },
  rw (e, answer),
  ground (arith, find-assign p p n net.core.heap),
)

-- A side that waits for a public key, and one that waits for the session key encrypted with it.
pub record Exchange (o : OpenSsl) (sys : System) (near far : Node) (pkt : Packet) : Type 0 where
  pub public : ℕ
  pub private : ℕ
  pub secret : List ℕ
  pub pair : IsPair o public private
  pub near_waits : near.state ≡ key_exchange
  pub far_waits : far.state ≡ handshake
  pub key_arrives : read_public_key o pkt ≡ ok public
  pub encrypts :
      encrypt_aes_context o sys.seed sys.session_key (some public) max_data_size ≡ ok (some secret)
  pub key_size : length sys.session_key ≡ aes_key_size
  pub far_size : length far.aes_context_rx ≡ aes_key_size
  pub data_size : length sys.raw_packet.bytes ≡ max_data_size

module _ (o : OpenSsl) (sys : System) (near far : Node) (pkt : Packet)
    (x : Exchange o sys near far pkt) where
  near_sends :
      (p : ℕ) (a : Network)
      → (after : Network) × (m : Node) × (handle o sys public_key_reply p near pkt a ≡ ok after)
        × (find p after.core.heap ≡ some m)
        × (m.aes_context_tx ≡ sys.session_key)
        × (m.state ≡ handshake)
  unfolding handle on_public_key_reply send_session_key
  near_sends p a =
      let m = record near {
        keys = record near.keys { public_key = some x.public };
        aes_context_tx = sys.session_key;
        state = handshake;
      } in
      let reply = session_packet sys a.core.my_id near.id x.secret in
      let short =
        encrypted_within o sys.seed x.public max_data_size sys.session_key x.secret x.encrypts in
      let (after, sent, there) =
        answer_sent o sys p m reply a
          (send_plain-IsOk o sys (some m) reply near.addr (λ n e. ground arith) short.1) in
      (
        after,
        m,
        rw (x.near_waits, x.key_arrives, x.encrypts, handle, on_public_key_reply) sent,
        there,
        refl,
        refl,
      )

  far_accepts :
      (other : System) (q from to : ℕ) (b : Network)
      → IsCbc o
      → x.pair.key_size ≤ other.raw_len
      → b.core.keys.private_key ≡ some x.private
      → (after : Network) × (k : Node) × (handle o other encryption_context q far
            (session_packet sys from to x.secret)
            b
          ≡ ok after)
        × (find q after.core.heap ≡ some k)
        × (k.aes_context_rx ≡ sys.session_key)
        × (k.state ≡ check_encryption)
  unfolding handle on_encryption_context confirm_session_key session_packet new_to
  far_accepts other q from to b cbc told key =
      let short =
        encrypted_within o sys.seed x.public max_data_size sys.session_key x.secret x.encrypts in
      let k = record far { aes_context_rx = sys.session_key; state = check_encryption } in
      let carried : take (length x.secret) (overwrite x.secret sys.raw_packet.bytes) ≡ x.secret =
        take-overwrite x.secret sys.raw_packet.bytes (omega (arith, x.data_size, short.1)) in
      let opened =
        decrypt_aes_context-encrypt_aes_context o sys.seed x.public x.private max_data_size
          other.raw_len sys.session_key far.aes_context_rx x.secret
          (overwrite x.secret sys.raw_packet.bytes) x.pair told x.key_size x.far_size x.encrypts
          (omega (arith, x.data_size, short.1, length-overwrite x.secret sys.raw_packet.bytes))
          carried in
      let opens : decrypt_aes_context o far.aes_context_rx b.core.keys.private_key other.raw_len
            (overwrite x.secret sys.raw_packet.bytes) (length x.secret)
          ≡ ok (true, sys.session_key) =
        rw key opened in
      let reply = record (new_to ready b.core.my_id far.id other.raw_packet) { size = 0 } in
      let (after, sent, there) =
        answer_sent o other q k reply b
          (send-IsOk o other (some k) reply far.addr cbc (omega arith)) in
      (after, k, rw (x.far_waits, opens, handle, on_encryption_context) sent, there, refl, refl)

-- A node in KeyExchange that gets a public key makes its own session key for sending, encrypts it,
-- and sends it; when the packet that it sends reaches a node in Handshake that has the private key of
-- the pair, that node takes the same key for receiving. Both go on to the next state, and neither
-- throws or reads or writes past a buffer: provided the encryption succeeds, keys have 32 bytes, the
-- fresh packet has its whole data array, the cipher is in CBC mode, and the uninitialised variable that
-- OpenSSL takes for the size of its output buffer holds at least the size of the private key.
pub session_key_agreement :
    (o : OpenSsl) (sys other : System) (near far : Node) (pkt : Packet) (p q : ℕ) (a b : Network)
    (x : Exchange o sys near far pkt)
    → IsCbc o
    → x.pair.key_size ≤ other.raw_len
    → b.core.keys.private_key ≡ some x.private
    → (a' : Network) × (b' : Network) × (m : Node) × (k : Node) × (handle o sys public_key_reply p
          near pkt a
        ≡ ok a')
      × (handle o other encryption_context q far
            (session_packet sys a.core.my_id near.id x.secret)
            b
          ≡ ok b')
      × (find p a'.core.heap ≡ some m)
      × (find q b'.core.heap ≡ some k)
      × (m.aes_context_tx ≡ k.aes_context_rx)
      × (m.state ≡ handshake)
      × (k.state ≡ check_encryption)
session_key_agreement o sys other near far pkt p q a b x cbc told key =
    let (a', m, sends, lives, tx, in_handshake) = near_sends o sys near far pkt x p a in
    let (b', k, takes, stays, rx, checks) =
      far_accepts o sys near far pkt x other q a.core.my_id near.id b cbc told key in
    (a', b', m, k, sends, takes, lives, stays, tx ∙ sym rx, in_handshake, checks)
