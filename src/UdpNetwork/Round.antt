-- ===== src/UdpNetwork/Round.antt =====
-- src/UDPNetwork.cpp: a round of `_main_loop` comes to its end.
use kapua.Prelude.{
  ℕ, ◌≡◌, refl, subst, Bool, true, false, List, none, inl, inr, ◌⊎◌, length, arith, Bool-cases,
  ◌&&◌, leb, ◌-◌, ◌++◌, [], ◌∷◌, if◌then◌else◌,
}
use kapua.Prelude.Results.{ok, IsOk}
use kapua.OpenSsl.{OpenSsl, IsCbc, IsSized, IsBounded}
use kapua.Protocol.{of_bytes, new_to, discovery, id_broadcast, max_packet_size}
use kapua.Rsa.{aes_key_size}
use kapua.UdpNetwork.State.{System, Network}
use kapua.UdpNetwork.Send.{send_plain-IsOk}
use kapua.UdpNetwork.Process.{process_packet}
use kapua.UdpNetwork.Receive.{Incoming, idle, failed, datagram, Receiver, receive}
use kapua.UdpNetwork.Orderly.{HasOwnKey, Orderly}
use kapua.UdpNetwork.Progress.{process_packet-IsOk}
use kapua.UdpNetwork.Service.{
  Discovery, Round, take_packet, broadcast, broadcast_address, discover, main_loop,
}
use kapua.UdpNetwork.Evolution.{Sound}
use kapua.UdpNetwork.Loop.{
  receive-Evolves, if_arrived-Evolves, take_packet-Evolves, discover-Evolves,
}
use kapua.UdpNetwork.Arrival.{Lives, receive-Arrives}

-- Nothing within the wait, or a datagram: `recvfrom` does not fail.
abbrev pub Heard : Incoming → Type 0
Heard idle = Unit {0}
Heard failed = ⊥
Heard (datagram addr bytes) = Unit {0}

-- The keys are those from before.
unfoldable pub kept_key :
    (o : OpenSsl) (net after : Network)
    → after.core.keys ≡ net.core.keys
    → HasOwnKey o net
    → HasOwnKey o after
kept_key o net after e own = record {
  public = own.public;
  der = own.der;
  key = rw e own.key;
  sized = own.sized;
  encoded = own.encoded;
  encodes = own.encodes;
  fits = own.fits;
}

module _ (o : OpenSsl) (sys sys' : System) (cbc : IsCbc o) (sized : IsSized o)
    (l : length sys'.session_key ≡ aes_key_size) where
  processed :
      (arrived : Bool) (r : Receiver)
      → (arrived ≡ false) ⊎ Lives r
      → HasOwnKey o r.net
      → (arrived ≡ true → Orderly o sys' (of_bytes r.memory))
      → IsOk (if arrived then process_packet o sys' r.node (of_bytes r.memory) r.net else ok r.net)
  processed false r lives own orderly = (r.net, refl)
  processed true r (inl e) own orderly = absurd (ground (arith, e))
  processed true r (inr (p, n, node, lives)) own orderly =
      let (after, e) =
        process_packet-IsOk o sys' p n (of_bytes r.memory) r.net cbc sized own (orderly refl) l
          lives in
      (after, rw node e)

  -- The first half of a round.
  packet_taken :
      (incoming : Incoming) (r : Receiver)
      → Heard incoming
      → IsBounded o
      → Sound r.net.core
      → length r.memory ≡ max_packet_size
      → HasOwnKey o r.net
      → ((t : Receiver)
          → receive o sys incoming r ≡ ok (true, t)
          → Orderly o sys' (of_bytes t.memory))
      → (t : Receiver) × (take_packet o sys sys' incoming r ≡ ok t)
        × (length t.memory ≡ max_packet_size)
        × HasOwnKey o t.net
  unfolding take_packet receive
  packet_taken idle r heard bounded s room own orderly = (r, refl, room, own)
  packet_taken failed r heard bounded s room own orderly = absurd heard
  packet_taken (datagram addr bytes) r heard bounded s room own orderly =
      let (arrived, t, e, still, lives) = receive-Arrives o sys addr bytes r bounded s room in
      let (sound, extends) = receive-Evolves o sys (datagram addr bytes) r t arrived s e in
      let key = kept_key o r.net t.net extends.keys own in
      let (net, f) =
        processed arrived t lives key
          λ a. orderly t (subst (λ b. receive o sys (datagram addr bytes) r ≡ ok (b, t)) a e) in
      let (_, later) = if_arrived-Evolves o sys' arrived t net sound f in
      (
        record t { net = net },
        rw (take_packet, e, f) refl,
        still,
        kept_key o t.net net later.keys key,
      )

discover-IsOk :
    (o : OpenSsl) (sys : System) (d : Discovery) (port now last : ℕ) (net : Network)
    → IsOk (discover o sys d port now last net)
unfolding discover broadcast new_to
discover-IsOk o sys d port now last net =
    elim (Bool-cases (d.enable && leb d.interval_ms (now - last))) [
      | inr e ↦ ((last, net), rw (discover, e) refl)
      | inl e ↦
          let (out, sent) =
            send_plain-IsOk o sys none (new_to discovery net.core.my_id id_broadcast sys.raw_packet)
              (broadcast_address port) (λ n f. absurd (ground arith)) (omega arith) in
          ((now, record net { sent = net.sent ++ out.1 }), rw (discover, e, sent) refl)
    ]

-- What a round brings, for a receiver: nothing or a datagram, a fresh session key of 32 bytes, and, if
-- a packet comes out of it, one that is orderly.
pub record Manageable (o : OpenSsl) (x : Round) (r : Receiver) : Type 0 where
  pub heard : Heard x.incoming
  pub fresh_key : length x.processing.session_key ≡ aes_key_size
  pub orderly :
      (t : Receiver)
      → receive o x.receiving x.incoming r ≡ ok (true, t)
      → Orderly o x.processing (of_bytes t.memory)

-- Every round of a run does, for the receiver that the rounds before it leave.
abbrev pub AllManageable : OpenSsl → Discovery → ℕ → List Round → ℕ → Receiver → Type 0
AllManageable o d port [] last r = Unit {0}
AllManageable o d port (x ∷ rounds) last r =
    Manageable o x r
    × ((t : Receiver) (last' : ℕ) (net : Network)
        → take_packet o x.receiving x.processing x.incoming r ≡ ok t
        → discover o x.sending d port x.now last t.net ≡ ok (last', net)
        → AllManageable o d port rounds last' (record t { net = net }))

-- `_main_loop` gets through any number of rounds, with discovery or without, and never throws and never
-- reads or writes past a buffer: where the registry is well-formed and free at first, the packet's
-- memory has its size, this node has a public key that fits a packet, OpenSSL keeps to the sizes that it
-- documents, `recvfrom` does not fail, fresh session keys have 32 bytes, and the packets that `_receive`
-- hands on are orderly.
pub main_loop-IsOk :
    (o : OpenSsl) (d : Discovery) (port : ℕ) (rounds : List Round) (last : ℕ) (r : Receiver)
    → IsCbc o
    → IsSized o
    → IsBounded o
    → Sound r.net.core
    → length r.memory ≡ max_packet_size
    → HasOwnKey o r.net
    → AllManageable o d port rounds last r
    → IsOk (main_loop o d port rounds last r)
unfolding main_loop
main_loop-IsOk o d port [] last r cbc sized bounded s room own all = ((last, r), refl)
main_loop-IsOk o d port (x ∷ rounds) last r cbc sized bounded s room own (now, later) =
    let (t, e, still, key) =
      packet_taken o x.receiving x.processing cbc sized now.fresh_key x.incoming r now.heard bounded
        s room own now.orderly in
    let (sound, _) = take_packet-Evolves o x.receiving x.processing x.incoming r t s e in
    let ((last', net), f) = discover-IsOk o x.sending d port x.now last t.net in
    let (sound', kept) = discover-Evolves o x.sending d port x.now last last' t.net net sound f in
    let (after, g) =
      main_loop-IsOk o d port rounds last' (record t { net = net }) cbc sized bounded sound' still
        (kept_key o t.net net kept.keys key) (later t last' net e f) in
    (after, rw (main_loop, e, f, g) refl)
