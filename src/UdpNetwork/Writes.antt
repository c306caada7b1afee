-- ===== src/UdpNetwork/Writes.antt =====
-- src/UDPNetwork.cpp: the node that each case of `_process_packet` writes, where the handshake goes on.
use mathlib.Core.List.{append-nil}
use kapua.Prelude.{
  ℕ, ◌+◌, ◌≤◌, ◌≡◌, refl, sym, ◌∙◌, subst, Bool, true, false, List, [], ◌++◌, some, length, arith,
  leb,
}
use kapua.Prelude.Bytes.{overwrite}
use kapua.Prelude.Maps.{find, find-assign}
use kapua.Prelude.Results.{Result, ok}
use kapua.OpenSsl.{OpenSsl, IsCbc}
use kapua.Address.{SockaddrHashable}
use kapua.Node.{
  Node, key_exchange, handshake, check_encryption, connected, update_last_contact, is_encrypting,
}
use kapua.Core.{Core, deref}
use kapua.Protocol.{
  Packet, PacketType, public_key_reply, ready, new_to, type_of, read_public_key, max_data_size,
  header_size,
}
use kapua.Rsa.{encrypt_aes_context, decrypt_aes_context}
use kapua.Rsa.SessionKey.{encrypted_within}
use kapua.UdpNetwork.State.{System, Network, Datagram, put_node}
use kapua.UdpNetwork.Send.{send, transmit, counted, send_plain, send-IsOk}
use kapua.UdpNetwork.Process.{
  answer, session_packet, send_session_key, on_public_key_request, on_public_key_reply,
  confirm_session_key, on_encryption_context, on_ready, handle, process_packet,
}
use kapua.UdpNetwork.Transitions.{put_node-put_node}
use kapua.UdpNetwork.Orderly.{HasOwnKey, written}

-- A network whose core is that of another with the node at a pointer written.
abbrev pub Has : Network → ℕ → Node → Network → Type 0
Has after p m net = after.core ≡ (put_node p m net).core

module _ (after : Network) (p : ℕ) (m : Node) (net : Network) (h : Has after p m net) where
  pub has_node : find p after.core.heap ≡ some m
  unfolding put_node
  has_node = rw h (ground (arith, find-assign p p m net.core.heap))

  pub has_keys : after.core.keys ≡ net.core.keys
  unfolding put_node
  has_keys = rw h refl

  pub has_id : after.core.my_id ≡ net.core.my_id
  unfolding put_node
  has_id = rw h refl

-- The node of a packet, once it is found and its time is noted.
abbrev pub noted : System → Node → Node
noted sys n = update_last_contact sys.now n

-- What `sendto` takes of a packet in the clear.
abbrev pub handed : System → SockaddrHashable → Packet → List Datagram
handed sys addr pkt = (transmit sys addr (header_size + pkt.size) (counted pkt)).1

-- A call that returns, leaves the core with the node at a pointer written, and sends some datagrams.
abbrev pub Writes : Result Network → ℕ → Node → Network → List Datagram → Type 0
Writes call p m net out =
    (after : Network) × (call ≡ ok after) × Has after p m net × (after.sent ≡ net.sent ++ out)

live : (p : ℕ) (c : Core) (n : Node) → find p c.heap ≡ some n → deref p c ≡ ok n
unfolding deref
live p c n e = rw (deref, e) refl

-- `_process_packet` with a node that lives, from what its `case` does.
pub process_packet-Writes :
    (o : OpenSsl) (sys : System) (t : PacketType) (p : ℕ) (n m : Node) (pkt : Packet)
    (net : Network) (out : List Datagram)
    → find p net.core.heap ≡ some n
    → type_of pkt.type_id ≡ t
    → Writes
        (handle o sys t p (noted sys n) pkt (put_node p (noted sys n) net))
        p
        m
        (put_node p (noted sys n) net)
        out
    → Writes (process_packet o sys (some p) pkt net) p m net out
unfolding process_packet put_node
process_packet-Writes o sys t p n m pkt net out lives e (after, h, has, sent) = (
  after,
  rw (live p net.core n lives, e, process_packet) h,
  has ∙ put_node-put_node p (noted sys n) m net,
  sent,
)

pub send_short :
    (o : OpenSsl) (sys : System) (n : Node) (pkt : Packet)
    → is_encrypting n.state ≡ false
    → pkt.size ≤ max_data_size
    → send o sys (some n) pkt n.addr
      ≡ ok (transmit sys n.addr (header_size + pkt.size) (counted pkt))
send_short o sys n pkt clear short =
    let fits : leb pkt.size max_data_size ≡ true = ground (arith, short) in
    let same : (k : Node) → some n ≡ some k → is_encrypting k.state ≡ false =
      λ k e. subst (λ (m : Node). is_encrypting m.state ≡ false) (unwrap n k e) clear in
    rw (send_plain o sys (some n) pkt n.addr same, fits) refl
  where
    unwrap : (n k : Node) → some n ≡ some k → n ≡ k
    unwrap n k e = cc

module _ (o : OpenSsl) (sys : System) (p : ℕ) (n : Node) (net : Network) where
  answer-Writes :
      (reply : Packet) (r : Bool × List Datagram)
      → send o sys (some n) reply n.addr ≡ ok r
      → Writes (answer o sys p n reply net) p n net r.1
  unfolding answer
  answer-Writes reply r e =
      (record (put_node p n net) { sent = net.sent ++ r.1 }, rw (e, answer), refl, refl)

module _ (o : OpenSsl) (sys : System) (p : ℕ) (n : Node) (net : Network) where
  -- The packet with this node's public key.
  abbrev pub key_reply : HasOwnKey o net → Packet
  key_reply own =
      let raw = new_to public_key_reply net.core.my_id n.id sys.raw_packet in
      record raw { size = length own.der; bytes = overwrite own.der raw.bytes }

  pub request-Writes :
      (own : HasOwnKey o net)
      → Writes
          (on_public_key_request o sys p n net)
          p
          (record n { state = key_exchange })
          net
          (handed sys n.addr (key_reply own))
  unfolding on_public_key_request
  request-Writes own =
      let m = record n { state = key_exchange } in
      let raw = new_to public_key_reply net.core.my_id n.id sys.raw_packet in
      let (after, sent, has, out) =
        answer-Writes o sys p m net (key_reply own) _
          (send_short o sys m (key_reply own) (ground arith) own.fits) in
      (after, rw (on_public_key_request, written o net raw own) sent, has, out)

  pub reply-Writes :
      (pkt : Packet) (public : ℕ) (secret : List ℕ)
      → n.state ≡ key_exchange
      → read_public_key o pkt ≡ ok public
      → encrypt_aes_context o sys.seed sys.session_key (some public) max_data_size
        ≡ ok (some secret)
      → Writes
          (on_public_key_reply o sys p n pkt net)
          p
          (record n {
            keys = record n.keys { public_key = some public };
            aes_context_tx = sys.session_key;
            state = handshake;
          })
          net
          (handed sys n.addr (session_packet sys net.core.my_id n.id secret))
  unfolding on_public_key_reply send_session_key session_packet
  reply-Writes pkt public secret waits readable encrypts =
      let m = record n {
        keys = record n.keys { public_key = some public };
        aes_context_tx = sys.session_key;
        state = handshake;
      } in
      let reply = session_packet sys net.core.my_id n.id secret in
      let short =
        encrypted_within o sys.seed public max_data_size sys.session_key secret encrypts in
      let (after, sent, has, out) =
        answer-Writes o sys p m net reply _ (send_short o sys m reply (ground arith) short.1) in
      (after, rw (waits, readable, encrypts, on_public_key_reply) sent, has, out)

  -- The node and the packet with which a session key is confirmed.
  abbrev pub confirming : List ℕ → Node
  confirming key = record n { aes_context_rx = key; state = check_encryption }

  abbrev pub confirmation : Packet
  confirmation = record (new_to ready net.core.my_id n.id sys.raw_packet) { size = 0 }

  pub context_sends-Writes :
      (pkt : Packet) (key : List ℕ) (r : Bool × List Datagram)
      → n.state ≡ handshake
      → decrypt_aes_context o n.aes_context_rx net.core.keys.private_key sys.raw_len pkt.bytes
          pkt.size
        ≡ ok (true, key)
      → send o sys (some (confirming key)) confirmation n.addr ≡ ok r
      → Writes (on_encryption_context o sys p n pkt net) p (confirming key) net r.1
  unfolding on_encryption_context confirm_session_key
  context_sends-Writes pkt key r waits opens sends =
      let (after, sent, has, out) =
        answer-Writes o sys p (confirming key) net confirmation r sends in
      (after, rw (waits, opens, on_encryption_context) sent, has, out)

  pub context-Writes :
      (pkt : Packet) (key : List ℕ)
      → IsCbc o
      → n.state ≡ handshake
      → decrypt_aes_context o n.aes_context_rx net.core.keys.private_key sys.raw_len pkt.bytes
          pkt.size
        ≡ ok (true, key)
      → (out : List Datagram) × Writes
          (on_encryption_context o sys p n pkt net)
          p
          (confirming key)
          net
          out
  unfolding new_to
  context-Writes pkt key cbc waits opens =
      let (r, sends) =
        send-IsOk o sys (some (confirming key)) confirmation n.addr cbc (omega arith) in
      (r.1, context_sends-Writes pkt key r waits opens sends)

  pub ready-Writes :
      n.state ≡ check_encryption
      → Writes (on_ready p n net) p (record n { state = connected }) net []
  unfolding on_ready put_node
  ready-Writes waits = (
    put_node p (record n { state = connected }) net,
    rw (waits, on_ready) refl,
    refl,
    sym (append-nil net.sent),
  )
