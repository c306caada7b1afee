-- ===== src/UdpNetwork/Connection.antt =====
-- src/UDPNetwork.cpp: the whole handshake, from the requests for public keys to two connected nodes.
use mathlib.Core.List.{append_assoc, append-nil}
use kapua.Prelude.{◌≤◌, ℕ, ◌≡◌, refl, sym, ◌∙◌, true, List, [], ◌∷◌, ◌++◌, some}
use kapua.Prelude.Maps.{find}
use kapua.Prelude.Results.{ok}
use kapua.OpenSsl.{OpenSsl, IsCbc}
use kapua.Node.{Node, key_exchange, handshake, check_encryption, connected, update_last_contact}
use kapua.Protocol.{
  Packet, PacketType, public_key_request, public_key_reply, encryption_context, ready, new_to,
  type_of, read_public_key, max_data_size,
}
use kapua.Rsa.{encrypt_aes_context, decrypt_aes_context}
use kapua.UdpNetwork.State.{System, Network, Datagram}
use kapua.UdpNetwork.Process.{session_packet}
use kapua.UdpNetwork.Handshake.{process_all}
use kapua.UdpNetwork.Writes.{has_id, noted, has_node, has_keys}
use kapua.UdpNetwork.Cases.{request_processed, reply_processed, context_processed, ready_processed}
use kapua.UdpNetwork.Side.{
  Side, Sends, key_packet, secret_packet, key_packet_legible, secret_packet_opens,
}

-- The four packets of the handshake, with what the system gives with each.
abbrev pub four : (PacketType → System) → Packet → Packet → Packet → Packet → List (System × Packet)
four s req rep ctx rdy =
    (s public_key_request, req)
    ∷ (s public_key_reply, rep)
    ∷ (s encryption_context, ctx)
    ∷ (s ready, rdy)
    ∷ []

sent_chain :
    (before key secret rest first second third last : List Datagram)
    → first ≡ before ++ key
    → second ≡ first ++ secret
    → third ≡ second ++ rest
    → last ≡ third ++ []
    → last ≡ before ++ (key ++ (secret ++ rest))
sent_chain before key secret rest first second third last d1 d2 d3 d4 =
    rw
      (
        d4,
        append-nil third,
        d3,
        d2,
        d1,
        append_assoc (before ++ key) secret rest,
        append_assoc before key (secret ++ rest),
      )
      refl

module _ (o : OpenSsl) (s : PacketType → System) (p : ℕ) (net : Network)
    (side : Side o s p net) where
  -- What the packets from the other side do, where its public key can be read and encrypts, and where
  -- its session key can be decrypted.
  side_connects :
      IsCbc o
      → (req rep ctx rdy : Packet) (public : ℕ) (secret key : List ℕ)
      → type_of req.type_id ≡ public_key_request
      → type_of rep.type_id ≡ public_key_reply
      → type_of ctx.type_id ≡ encryption_context
      → type_of rdy.type_id ≡ ready
      → read_public_key o rep ≡ ok public
      → encrypt_aes_context o
          (s public_key_reply).seed
          (s public_key_reply).session_key
          (some public)
          max_data_size
        ≡ ok (some secret)
      → decrypt_aes_context o side.node.aes_context_rx net.core.keys.private_key
          (s encryption_context).raw_len
          ctx.bytes
          ctx.size
        ≡ ok (true, key)
      → (after : Network) × (m : Node) × (process_all o p (four s req rep ctx rdy) net ≡ ok after)
        × (find p after.core.heap ≡ some m)
        × (m.state ≡ connected)
        × (m.aes_context_tx ≡ (s public_key_reply).session_key)
        × (m.aes_context_rx ≡ key)
        × Sends o s p net side after secret
  unfolding process_all update_last_contact
  side_connects cbc req rep ctx rdy public secret key t1 t2 t3 t4 readable encrypts opens =
      let n = side.node in
      let (a1, e1, h1, d1) =
        request_processed o (s public_key_request) p n net req side.there side.own t1 in
      let n1 = record (noted (s public_key_request) n) { state = key_exchange } in
      let (a2, e2, h2, d2) =
        reply_processed o (s public_key_reply) p n1 a1 rep (has_node a1 p n1 net h1) public secret
          refl t2 readable encrypts in
      let n2 = record (noted (s public_key_reply) n1) {
        keys = record n1.keys { public_key = some public };
        aes_context_tx = (s public_key_reply).session_key;
        state = handshake;
      } in
      let kept : a2.core.keys ≡ net.core.keys = has_keys a2 p n2 a1 h2 ∙ has_keys a1 p n1 net h1 in
      let (rest, (a3, e3, h3, d3)) =
        context_processed o (s encryption_context) p n2 a2 ctx (has_node a2 p n2 a1 h2) key cbc refl
          t3 (rw kept opens) in
      let n3 = record (noted (s encryption_context) n2) {
        aes_context_rx = key;
        state = check_encryption;
      } in
      let (a4, e4, h4, d4) =
        ready_processed o (s ready) p n3 a3 rdy (has_node a3 p n3 a2 h3) refl t4 in
      let n4 = record (noted (s ready) n3) { state = connected } in
      let mine = rw (has_id a1 p n1 net h1) at d2 in
      (
        a4,
        n4,
        rw (process_all, e1, e2, e3, e4) refl,
        has_node a4 p n4 a3 h4,
        refl,
        refl,
        refl,
        (rest, sent_chain net.sent _ _ rest a1.sent a2.sent a3.sent a4.sent d1 mine d3 d4),
      )

-- Two sides, each of which gets from the other a request for its public key, the other's public key,
-- the other's session key and Ready, in this order, both process all four packets without an exception
-- or an access past a buffer, and end connected, in whatever states they began: and the key that each
-- sends with is the one that the other receives with. The packets with the keys that each of them gets
-- are those that the other hands to `sendto`, in the clear, before whatever else it sends. It is provided
-- that each side has a pair of keys whose public one fits a packet and is read back, that session keys
-- have 32 bytes, that fresh packets have their whole data arrays, that both encryptions succeed, that
-- the cipher is in CBC mode, that what a public key encrypts the private one decrypts, and that the
-- uninitialised variable that OpenSSL takes for the size of the buffer it decrypts to holds, on either
-- side, at least the size of the private key.
pub handshake_completes :
    (o : OpenSsl) (s s' : PacketType → System) (p q : ℕ) (a b : Network) (x : Side o s p a)
    (y : Side o s' q b) (req rdy req' rdy' : Packet) (secret secret' : List ℕ) (cbc : IsCbc o)
    → type_of req.type_id ≡ public_key_request
    → type_of req'.type_id ≡ public_key_request
    → type_of rdy.type_id ≡ ready
    → type_of rdy'.type_id ≡ ready
    → x.pair.key_size ≤ (s encryption_context).raw_len
    → y.pair.key_size ≤ (s' encryption_context).raw_len
    → encrypt_aes_context o
        (s public_key_reply).seed
        (s public_key_reply).session_key
        (some y.own.public)
        max_data_size
      ≡ ok (some secret)
    → encrypt_aes_context o
        (s' public_key_reply).seed
        (s' public_key_reply).session_key
        (some x.own.public)
        max_data_size
      ≡ ok (some secret')
    → (a' : Network) × (b' : Network) × (m : Node) × (k : Node) × (process_all o p
          (four s req' (key_packet o s' q b y) (secret_packet o s' q b y secret') rdy')
          a
        ≡ ok a')
      × (process_all o q (four s' req (key_packet o s p a x) (secret_packet o s p a x secret) rdy) b
          ≡ ok b')
      × (find p a'.core.heap ≡ some m)
      × (find q b'.core.heap ≡ some k)
      × (m.state ≡ connected)
      × (k.state ≡ connected)
      × (m.aes_context_tx ≡ k.aes_context_rx)
      × (k.aes_context_tx ≡ m.aes_context_rx)
      × Sends o s p a x a' secret
      × Sends o s' q b y b' secret'
unfolding session_packet new_to type_of
handshake_completes o s s' p q a b x y req rdy req' rdy' secret secret' cbc t1 t2 t3 t4 told told' e
      e' =
    let opens : decrypt_aes_context o x.node.aes_context_rx a.core.keys.private_key
          (s encryption_context).raw_len (secret_packet o s' q b y secret').bytes
          (secret_packet o s' q b y secret').size
        ≡ ok (true, (s' public_key_reply).session_key) =
      rw x.key (
        secret_packet_opens o s' q b y x.own.public x.private (s' public_key_reply).seed secret'
          x.node.aes_context_rx (s encryption_context).raw_len x.pair told x.room e') in
    let opens' : decrypt_aes_context o y.node.aes_context_rx b.core.keys.private_key
          (s' encryption_context).raw_len (secret_packet o s p a x secret).bytes
          (secret_packet o s p a x secret).size
        ≡ ok (true, (s public_key_reply).session_key) =
      rw y.key (
        secret_packet_opens o s p a x y.own.public y.private (s public_key_reply).seed secret
          y.node.aes_context_rx (s' encryption_context).raw_len y.pair told' y.room e) in
    let (a', m, done, lives, joined, tx, rx, sends) =
      side_connects o s p a x cbc req' (key_packet o s' q b y) (secret_packet o s' q b y secret')
        rdy' y.own.public secret (s' public_key_reply).session_key t2 refl refl t4
        (key_packet_legible o s' q b y) e opens in
    let (b', k, done', lives', joined', tx', rx', sends') =
      side_connects o s' q b y cbc req (key_packet o s p a x) (secret_packet o s p a x secret) rdy
        x.own.public secret' (s public_key_reply).session_key t1 refl refl t3
        (key_packet_legible o s p a x) e' opens' in
    (
      a',
      b',
      m,
      k,
      done,
      done',
      lives,
      lives',
      joined,
      joined',
      tx ∙ sym rx',
      tx' ∙ sym rx,
      sends,
      sends',
    )
