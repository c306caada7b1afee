-- ===== src/UdpNetwork/Loop.antt =====
-- src/UDPNetwork.cpp: the registry over `_receive` and over whole runs of `_main_loop`.
use kapua.Prelude.{
  ℕ, ◌≡◌, ap, ◌∙◌, subst, Bool, true, false, List, [], ◌∷◌, Option, none, some, inl, inr, ltb, ◌==◌,
  length, take, arith, Bool-cases, if◌then◌else◌, ◌&&◌, leb, ◌-◌,
}
use kapua.Prelude.Results.{ok, ran_both}
use kapua.OpenSsl.{OpenSsl}
use kapua.Core.{Core, add_node, find_node_at, deref}
use kapua.Core.Registry.{added, add_node_lem}
use kapua.Protocol.{Packet, of_bytes, check_version_valid, header_size, max_packet_size}
use kapua.UdpNetwork.State.{System, Network}
use kapua.UdpNetwork.Send.{send}
use kapua.UdpNetwork.Process.{process_packet}
use kapua.UdpNetwork.Receive.{
  Incoming, idle, failed, datagram, Receiver, recvfrom, open_packet, node_at, greet, greet_unknown,
  accept, after_open, take_in, receive,
}
use kapua.UdpNetwork.Reception.{find_node_at_lem}
use kapua.UdpNetwork.Service.{Discovery, Round, take_packet, broadcast, discover, main_loop}
use kapua.UdpNetwork.Evolution.{
  Sound, Evolves, Evolves-refl, Evolves-trans, added-Evolves, process_packet-Evolves,
}

-- A call that left the core as it was.
same_core : {c d : Core} → Sound c → c ≡ d → Evolves c d
same_core {c} s e = subst (λ x. Evolves c x) e (Evolves-refl c s)

module _ (o : OpenSsl) (sys : System) where
  greet-Evolves :
      (pkt : Packet) (r r' : Receiver)
      → Sound r.net.core
      → greet o sys pkt r ≡ ok r'
      → Evolves r.net.core r'.net.core
  unfolding greet
  greet-Evolves pkt r r' s h =
      let ((p, core), e, h1) =
        ran_both _ (add_node sys.raw_node pkt.from_id r.from_addr r.net.core) h in
      let (n, _, h2) = ran_both _ (deref p core) h1 in
      let (_, _, h3) = ran_both _ (send o sys (some n) _ r.from_addr) h2 in
      let new : added sys.raw_node pkt.from_id r.from_addr r.net.core ≡ r'.net.core =
        ground
          (arith, e, h3, add_node_lem sys.raw_node pkt.from_id r.from_addr r.net.core s.free) in
      subst (λ c. Evolves r.net.core c) new
        (added-Evolves sys.raw_node pkt.from_id r.from_addr r.net.core s)

  greet_unknown-Evolves :
      (pkt : Packet) (r r' : Receiver) (known : Option ℕ)
      → Sound r.net.core
      → greet_unknown o sys pkt r known ≡ ok r'
      → Evolves r.net.core r'.net.core
  unfolding greet_unknown
  greet_unknown-Evolves pkt r r' none s h = greet-Evolves pkt r r' s h
  greet_unknown-Evolves pkt r r' (some p) s h = same_core s (ground (arith, h))

  accept-Evolves :
      (r r' : Receiver) (b : Bool)
      → Sound r.net.core
      → accept o sys r ≡ ok (b, r')
      → Evolves r.net.core r'.net.core
  unfolding accept
  accept-Evolves r r' b s h = elim (Bool-cases (check_version_valid false (of_bytes r.memory))) [
    | inr v ↦ same_core s (ground (arith, h, v))
    | inl v ↦ elim (Bool-cases ((of_bytes r.memory).from_id == r.net.core.my_id)) [
      | inl f ↦ same_core s (ground (arith, h, v, f))
      | inr f ↦
          let (t, g, e) =
            ran_both _ (greet_unknown o sys (of_bytes r.memory) r r.node)
              (rw (v, f, accept) at h) in
          subst (λ c. Evolves r.net.core c) (ground (arith, e))
            (greet_unknown-Evolves (of_bytes r.memory) r t r.node s g)
    ]
  ]

  after_open-Evolves :
      (r r' : Receiver) (b : Bool) (opened : Bool × List ℕ)
      → Sound r.net.core
      → after_open o sys r opened ≡ ok (b, r')
      → Evolves r.net.core r'.net.core
  unfolding after_open
  after_open-Evolves r r' b (false, memory) s h = same_core s (ground (arith, h))
  after_open-Evolves r r' b (true, memory) s h =
      accept-Evolves (record r { memory = memory }) r' b s h

  take_in-Evolves :
      (size : ℕ) (r r' : Receiver) (b : Bool)
      → Sound r.net.core
      → take_in o sys size r ≡ ok (b, r')
      → Evolves r.net.core r'.net.core
  unfolding take_in
  take_in-Evolves size r r' b s h =
      let ((found, core), e, h1) = ran_both _ (find_node_at r.from_addr r.net.core) h in
      let (node, _, h2) = ran_both _ (node_at found _) h1 in
      let (opened, _, h3) = ran_both _ (open_packet o node r.memory size) h2 in
      let kept : r.net.core ≡ core =
        ap (λ l. record r.net.core { nodes_locked = l }) s.free
        ∙ ground (arith, e, find_node_at_lem r.from_addr r.net.core s.free) in
      let found_sound : Sound core = subst (λ c. Sound c) kept s in
      Evolves-trans (same_core s kept) (
        after_open-Evolves (record r { net = record r.net { core = core }; node = found }) r' b
          opened found_sound h3)

  pub receive-Evolves :
      (incoming : Incoming) (r r' : Receiver) (b : Bool)
      → Sound r.net.core
      → receive o sys incoming r ≡ ok (b, r')
      → Evolves r.net.core r'.net.core
  unfolding receive recvfrom
  receive-Evolves idle r r' b s h = same_core s (ground (arith, h))
  receive-Evolves failed r r' b s h = take_in-Evolves 65535 r r' b s h
  receive-Evolves (datagram addr bytes) r r' b s h =
      let size = length (take max_packet_size bytes) in
      elim (Bool-cases (size == 0)) [
        | inl z ↦ same_core s (ground (arith, h, z))
        | inr z ↦ elim (Bool-cases (ltb size header_size)) [
          | inl l ↦ same_core s (ground (arith, h, z, l))
          | inr l ↦
              take_in-Evolves size (recvfrom (datagram addr bytes) r).1 r' b s (rw (z, l) at h)
        ]
      ]

pub if_arrived-Evolves :
    (o : OpenSsl) (sys : System) (arrived : Bool) (r : Receiver) (net : Network)
    → Sound r.net.core
    → (if arrived then process_packet o sys r.node (of_bytes r.memory) r.net else ok r.net) ≡ ok net
    → Evolves r.net.core net.core
if_arrived-Evolves o sys true r net s h =
    process_packet-Evolves o sys r.node (of_bytes r.memory) r.net net s h
if_arrived-Evolves o sys false r net s h = same_core s (ground (arith, h))

pub take_packet-Evolves :
    (o : OpenSsl) (sys sys' : System) (incoming : Incoming) (r r' : Receiver)
    → Sound r.net.core
    → take_packet o sys sys' incoming r ≡ ok r'
    → Evolves r.net.core r'.net.core
unfolding take_packet
take_packet-Evolves o sys sys' incoming r r' s h =
    let ((arrived, t), e, h1) = ran_both _ (receive o sys incoming r) h in
    let received = receive-Evolves o sys incoming r t arrived s e in
    let (net, e', h2) = ran_both _ (if arrived then _ else ok t.net) h1 in
    subst (λ c. Evolves r.net.core c) (ground (arith, h2))
      (Evolves-trans received (if_arrived-Evolves o sys' arrived t net received.0 e'))

broadcast-core :
    (o : OpenSsl) (sys : System) (port : ℕ) (net after : Network)
    → broadcast o sys port net ≡ ok after
    → net.core ≡ after.core
unfolding broadcast
broadcast-core o sys port net after h =
    let (_, _, e) = ran_both _ (send o sys none _ _) h in ground (arith, e)

pub discover-Evolves :
    (o : OpenSsl) (sys : System) (d : Discovery) (port now last last' : ℕ) (net after : Network)
    → Sound net.core
    → discover o sys d port now last net ≡ ok (last', after)
    → Evolves net.core after.core
unfolding discover
discover-Evolves o sys d port now last last' net after s h =
    elim (Bool-cases (d.enable && leb d.interval_ms (now - last))) [
      | inr e ↦ same_core s (ground (arith, h, e))
      | inl e ↦
          let (sent, g, e') = ran_both _ (broadcast o sys port net) (rw (e, discover) at h) in
          same_core s (broadcast-core o sys port net sent g ∙ ground (arith, e'))
    ]

-- However many rounds `_main_loop` makes, whatever arrives in them and whatever the system gives: where
-- the rounds return, a well-formed registry whose mutex is free is well-formed and free again after them;
-- this node's identity and keys are the same, every identity that led to a node leads to that node,
-- and every node that was there is there, with its identity and its address.
pub main_loop-Evolves :
    (o : OpenSsl) (d : Discovery) (port : ℕ) (rounds : List Round) (last last' : ℕ)
    (r r' : Receiver)
    → Sound r.net.core
    → main_loop o d port rounds last r ≡ ok (last', r')
    → Evolves r.net.core r'.net.core
unfolding main_loop
main_loop-Evolves o d port [] last last' r r' s h = same_core s (ground (arith, h))
main_loop-Evolves o d port (x ∷ rounds) last last' r r' s h =
    let (t, e, h1) = ran_both _ (take_packet o x.receiving x.processing x.incoming r) h in
    let taken = take_packet-Evolves o x.receiving x.processing x.incoming r t s e in
    let ((l, net), e', h2) = ran_both _ (discover o x.sending d port x.now last t.net) h1 in
    let sent = discover-Evolves o x.sending d port x.now last l t.net net taken.0 e' in
    Evolves-trans taken (
      Evolves-trans sent
        (main_loop-Evolves o d port rounds l last' (record t { net = net }) r' sent.0 h2))
