-- ===== src/UdpNetwork/Unread.antt =====
-- src/UDPNetwork.cpp: `_main_loop` at a PublicKeyReply, whose key may be none that OpenSSL reads.
use kapua.Prelude.{
  ℕ, ◌≤◌, ◌≡◌, refl, sym, ap, ◌∙◌, subst, Bool, true, false, ◌&&◌, List, ◌∷◌, Option, none, some,
  inl, inr, if◌then◌else◌, length, take, arith, Bool-cases, Option-cases, length-take,
}
use kapua.Prelude.Bytes.{overwrite, take-overwrite}
use kapua.Prelude.Maps.{find, find-assign}
use kapua.Prelude.Results.{ok, throws, runtime_error, ◌>>=◌}
use kapua.OpenSsl.{OpenSsl, IsSized}
use kapua.Address.{SockaddrHashable, find_addr}
use kapua.Node.{Node, key_exchange, update_last_contact}
use kapua.Core.{Core, deref}
use kapua.Protocol.{Packet, public_key_reply, type_of, max_packet_size, max_data_size}
use kapua.Rsa.{aes_key_size}
use kapua.UdpNetwork.State.{System, Network, put_node}
use kapua.UdpNetwork.Send.{counted}
use kapua.UdpNetwork.Process.{is_in, on_public_key_reply, handle, process_packet}
use kapua.UdpNetwork.Transitions.{Step, stay, in_lem}
use kapua.UdpNetwork.Handshake.{process_packet-Step}
use kapua.UdpNetwork.Faults.{malformed_reply_throws}
use kapua.UdpNetwork.Progress.{reply_handled}
use kapua.UdpNetwork.Receive.{datagram, Receiver}
use kapua.UdpNetwork.Service.{Discovery, Round, take_packet, discover, main_loop}
use kapua.UdpNetwork.Meeting.Carrier.{Proper, arrived}
use kapua.UdpNetwork.Meeting.Peer.{Peer, clear_comes}

-- No key.
abbrev pub unread : Option ℕ → Bool
unread none = true
unread (some key) = false

module _ (o : OpenSsl) (sys : System) (p : ℕ) (n : Node) (pkt : Packet) (net : Network) where
  -- What a packet does to the node.
  abbrev Stepped : Network → Type 0
  Stepped after =
      (m : Node) × (find p after.core.heap ≡ some m) × Step public_key_reply n.state m.state

  reply-Stepped :
      (after : Network)
      → process_packet o sys (some p) pkt net ≡ ok after
      → find p net.core.heap ≡ some n
      → type_of pkt.type_id ≡ public_key_reply
      → Stepped after
  reply-Stepped after e lives type =
      let (k, m, lived, step, _, _, core) = process_packet-Step o sys p pkt net after e in
      let same : k ≡ n = ground (arith, lived, lives) in
      let typed : Step public_key_reply k.state m.state =
        subst (λ t. Step t k.state m.state) type step in
      (
        m,
        ap (λ (c : Core). find p c.heap) core ∙ find-assign p p m net.core.heap ∙ ground arith,
        subst (λ (i : Node). Step public_key_reply i.state m.state) same typed,
      )

  -- The key as the packet has it ends the call where the node waits for one and OpenSSL reads none.
  reply_processed :
      IsSized o
      → length sys.session_key ≡ aes_key_size
      → find p net.core.heap ≡ some n
      → type_of pkt.type_id ≡ public_key_reply
      → pkt.size ≤ max_data_size
      → (after : Network) × Stepped after
        × (process_packet o sys (some p) pkt net ≡ (
            if is_in n.state key_exchange && unread (o.d2i (take pkt.size pkt.bytes))
            then throws runtime_error
            else ok after))
  unfolding process_packet handle on_public_key_reply update_last_contact deref
  reply_processed sized l lives type short = elim (Bool-cases (is_in n.state key_exchange)) [
    | inr s ↦
        let after = put_node p (update_last_contact sys.now n) net in
        let whole : process_packet o sys (some p) pkt net ≡ ok after =
          rw (lives, deref, type, s) refl in
        (after, reply-Stepped after whole lives type, rw s whole)
    | inl s ↦ elim (Option-cases (o.d2i (take pkt.size pkt.bytes))) [
      | inl e ↦
          let state = in_lem n.state key_exchange s in
          (
            net,
            (n, lives, stay),
            rw (s, e) (malformed_reply_throws o sys p pkt net n lives state type short e),
          )
      | inr (key, e) ↦
          let m = update_last_contact sys.now n in
          let (after, done) = reply_handled o sys p m pkt (put_node p m net) sized l key e short in
          let whole : process_packet o sys (some p) pkt net ≡ ok after =
            rw (lives, deref, type) done in
          (after, reply-Stepped after whole lives type, rw (s, e) whole)
    ]
  ]

-- A round that takes a PublicKeyReply in the clear from a node that is known ends the loop with an
-- exception, whatever rounds were to come, where the node is in KeyExchange and OpenSSL reads no key in
-- the packet's counted data; else the loop goes on, to discovery and the rounds to come, and the node's
-- state is what it was or has gone from KeyExchange to Handshake. This is where OpenSSL keeps to the sizes
-- that it gives and random session keys have 32 bytes, `recvfrom` brings that packet, whose fields fit
-- their widths and which has this protocol's magic number and a compatible version, another sender's
-- identity and at most 1404 bytes of data, the registry is unlocked, and the packet's memory has its
-- 1450 bytes.
pub reply_outcome :
    (o : OpenSsl) (settings : Discovery) (port : ℕ) (x : Round) (rounds : List Round) (last : ℕ)
    (addr : SockaddrHashable) (p : ℕ) (n : Node) (pkt : Packet) (r : Receiver)
    → IsSized o
    → length x.processing.session_key ≡ aes_key_size
    → x.incoming ≡ datagram addr (counted pkt)
    → type_of pkt.type_id ≡ public_key_reply
    → Proper r.net.core.my_id pkt
    → r.net.core.nodes_locked ≡ false
    → find_addr addr r.net.core.nodes_by_addr ≡ some p
    → find p r.net.core.heap ≡ some n
    → length r.memory ≡ max_packet_size
    → (after : Receiver) × (m : Node) × (find p after.net.core.heap ≡ some m)
      × Step public_key_reply n.state m.state
      × (main_loop o settings port (x ∷ rounds) last r ≡ (
          if is_in n.state key_exchange && unread (o.d2i (take pkt.size pkt.bytes))
          then throws runtime_error
          else do
            (last', net) ← discover o x.sending settings port x.now last after.net
            main_loop o settings port rounds last' (record after { net = net })))
unfolding main_loop take_packet
reply_outcome o settings port x rounds last addr p n pkt r sized l comes type proper free listed
      lives room =
    let peer : Peer r.net addr p n r.net.sent r = record {
      free = free;
      listed = listed;
      lives = lives;
      keys = refl;
      my_id = refl;
      sent = refl;
      room = room;
    } in
    let (r', rest, received, known, at, reads, spare) =
      clear_comes o x.receiving r.net addr pkt p n r.net.sent r proper peer in
    let key_bytes = take pkt.size pkt.bytes in
    let fatal = is_in n.state key_exchange && unread (o.d2i key_bytes) in
    let exact : length key_bytes ≡ pkt.size =
      omega (arith, length-take pkt.size pkt.bytes, proper.wire.bytes, proper.size) in
    let whole : take pkt.size (overwrite key_bytes rest) ≡ key_bytes =
      ap (λ k. take k (overwrite key_bytes rest)) (sym exact)
      ∙ take-overwrite key_bytes rest (omega (arith, exact, spare, proper.size)) in
    let (net, (m, kept, step), processed) =
      reply_processed o x.processing p n (arrived pkt rest) r'.net sized l known.lives type
        proper.size in
    (
      record r' { net = net },
      m,
      kept,
      step,
      rw (comes, received, at, reads, processed, whole)
          (elim (Bool-cases fatal) [ inl e ↦ rw e refl | inr e ↦ rw e refl ]),
    )
