-- ===== src/UdpNetwork/Meeting/Sides.antt =====
-- src/UDPNetwork.cpp: either side of a meeting, from the discovery of one node by the other.
use kapua.Prelude.{◌≤◌, ℕ, suc, ◌≡◌, ◌≢◌, refl, arith, sym, subst, List, [], ◌∷◌, ◌++◌}
use kapua.Prelude.Results.{ok}
use kapua.OpenSsl.{OpenSsl, IsCbc, Inverts}
use kapua.Address.{htons, SockaddrHashable}
use kapua.Node.{Node, new_node_at, update_last_contact}
use kapua.Protocol.{Packet, public_key_request, discovery, id_broadcast, new_to, type_of}
use kapua.UdpNetwork.State.{System, Datagram}
use kapua.UdpNetwork.Receive.{Receiver, datagram}
use kapua.UdpNetwork.Send.{counted}
use kapua.UdpNetwork.Service.{take_packet, broadcast_address, discovery_packet, discovery_bytes}
use kapua.UdpNetwork.Writes.{noted}
use kapua.UdpNetwork.Meeting.Carrier.{new_to-Proper}
use kapua.UdpNetwork.Meeting.Peer.{Peer, Stranger, Received, clear_comes}
use kapua.UdpNetwork.Meeting.Newcomer.{newcomer, stranger_comes}
use kapua.UdpNetwork.Meeting.Steps.{handed_whole, discovery_taken}
use kapua.UdpNetwork.Meeting.Course.{Serves, Offer, Course, course}
use kapua.UdpNetwork.Meeting.Offers.{Party, Sealed, offer}

-- Two nodes that have not met, and have sent nothing, with all that the system gives to either; `d` is what
-- it gives to the broadcast of the first.
pub record Apart (o : OpenSsl) (a b : Receiver) (addr_a addr_b : SockaddrHashable) (d : System)
    (sa ta sb tb : ℕ → System) : Type 0 where
  pub party_a : Party o a.net
  pub party_b : Party o b.net
  pub differ : a.net.core.my_id ≢ b.net.core.my_id
  pub alone_a : Stranger a.net addr_b [] a
  pub alone_b : Stranger b.net addr_a [] b
  pub announces : Serves d
  pub receives_a : (i : ℕ) → Serves (sa i)
  pub serves_a : (i : ℕ) → Serves (ta i)
  pub receives_b : (i : ℕ) → Serves (sb i)
  pub serves_b : (i : ℕ) → Serves (tb i)
  -- what the uninitialised size of `_process_packet` holds as the other's session key comes
  pub told_a : party_a.pair.key_size ≤ (ta 2).raw_len
  pub told_b : party_b.pair.key_size ≤ (tb 3).raw_len

-- A meeting in which the first node has broadcast its discovery, and is `a'` then.
pub record Scene : Type 0 where
  pub o : OpenSsl
  pub a : Receiver
  pub b : Receiver
  pub addr_a : SockaddrHashable
  pub addr_b : SockaddrHashable
  pub port : ℕ
  pub d : System
  pub sa : ℕ → System
  pub ta : ℕ → System
  pub sb : ℕ → System
  pub tb : ℕ → System
  pub cbc : IsCbc o
  pub inverts : Inverts o
  pub apart : Apart o a b addr_a addr_b d sa ta sb tb
  pub for_b : Sealed o ta a.net.core.my_id b.net.core.my_id apart.party_b.own.public
  pub for_a : Sealed o (λ i. tb (suc i)) b.net.core.my_id a.net.core.my_id apart.party_a.own.public
  pub listens : addr_b.sin_port ≡ htons port
  pub a' : Receiver
  pub alone : Stranger a.net addr_b ((broadcast_address port, discovery_bytes d a.net) ∷ []) a'

-- What the first node is when it has broadcast its discovery.
pub announced :
    (d : System) (port : ℕ) (a : Receiver) (addr_b : SockaddrHashable)
    → Stranger a.net addr_b [] a
    → let here : List Datagram = (broadcast_address port, discovery_bytes d a.net) ∷ [] in
      Stranger a.net addr_b here (record a { net = record a.net { sent = a.net.sent ++ here } })
announced d port a addr_b alone = record {
  free = alone.free;
  unlisted = alone.unlisted;
  keys = refl;
  my_id = refl;
  sent = λ i. alone.sent i ++ (broadcast_address port, discovery_bytes d a.net) ∷ [];
  room = alone.room;
}

module _ (m : Scene) where
  open m use {
    o, a, b, addr_a, addr_b, port, d, sa, ta, sb, tb, cbc, inverts, apart, for_b, for_a, a', alone,
  }

  -- What the system gives to the second node in the handshake.
  abbrev pub s_b : ℕ → System
  s_b i = sb (suc i)

  abbrev pub t_b : ℕ → System
  t_b i = tb (suc i)

  abbrev pub a_id : ℕ
  a_id = a.net.core.my_id

  abbrev pub b_id : ℕ
  b_id = b.net.core.my_id

  abbrev pub first_b : List Datagram
  first_b = (addr_a, counted (new_to public_key_request b_id a_id (sb 0).raw_packet)) ∷ []

  abbrev pub first_a : List Datagram
  first_a =
      (broadcast_address port, discovery_bytes d a.net)
      ∷ (addr_b, counted (new_to public_key_request a_id b_id (sa 0).raw_packet))
      ∷ []

  -- The second node adds the first for its discovery, and asks for its public key.
  pub discovered :
      (b1 : Receiver) × (q : ℕ) × (take_packet o
          (sb 0)
          (tb 0)
          (datagram addr_a (discovery_bytes d a.net))
          b
        ≡ ok b1)
      × Peer b.net addr_a q
          (noted (tb 0) (newcomer o (sb 0) b.net addr_a (discovery_packet d a.net)))
          first_b
          b1
  unfolding new_to type_of
  discovered =
      let pkt : Packet = discovery_packet d a.net in
      let proper =
        new_to-Proper discovery b_id a_id id_broadcast d.raw_packet apart.announces.wire
          (omega arith) apart.party_a.id_fits (omega arith) apart.differ in
      let (q, received) = stranger_comes o (sb 0) b.net addr_a pkt [] b proper apart.alone_b in
      let n = newcomer o (sb 0) b.net addr_a pkt in
      let received' =
        subst (λ out. Received o (sb 0) b.net addr_a (datagram addr_a (counted pkt)) b q n out pkt)
          (handed_whole (sb 0) addr_a (new_to public_key_request b_id a_id (sb 0).raw_packet)
            (apart.receives_b 0).reliable)
          received in
      let (b1, takes, peer) =
        discovery_taken o (sb 0) (tb 0) b.net addr_a _ b q n first_b pkt received' refl in
      (b1, q, takes, peer)

  -- How the first node keeps the second, and the second the first, when the handshake begins.
  abbrev pub kept_b : Node
  kept_b = newcomer o (sa 0) a.net addr_b (new_to public_key_request b_id a_id (sb 0).raw_packet)

  abbrev pub kept_a : Node
  kept_a = noted (tb 0) (newcomer o (sb 0) b.net addr_a (discovery_packet d a.net))

  -- The packets of each node.
  abbrev pub of_a : Offer o b.net apart.party_a.own.public (ta 1).session_key
  of_a =
      offer o a.net b.net apart.party_a apart.party_b (sa 0) ta for_b.secret for_b.update
        for_b.final (apart.receives_a 0) apart.serves_a apart.differ for_b.wraps for_b.encrypts

  abbrev pub of_b : Offer o a.net apart.party_b.own.public (t_b 1).session_key
  of_b =
      offer o b.net a.net apart.party_b apart.party_a (sb 0) t_b for_a.secret for_a.update
        for_a.final (apart.receives_b 0) (λ i. apart.serves_b (suc i)) (λ e. apart.differ (sym e))
        for_a.wraps for_a.encrypts

  abbrev pub CourseOfA : ℕ → Type 0
  CourseOfA p =
      Course o a.net addr_b sa ta apart.party_a.own apart.party_b.own.public (t_b 1).session_key
        of_b p kept_b first_a a' (datagram addr_b (counted of_b.request)) for_b.secret for_b.update
        for_b.final

  -- The first node adds the second for its request, and takes all its packets.
  pub joins_b : (p : ℕ) × CourseOfA p
  unfolding new_to new_node_at offer
  joins_b =
      let pkt = of_b.request in
      let disc = (broadcast_address port, discovery_bytes d a.net) ∷ [] in
      let (p, received) =
        stranger_comes o (sa 0) a.net addr_b pkt disc a' of_b.request_proper alone in
      let received' =
        subst
          (λ out.
            Received o (sa 0) a.net addr_b (datagram addr_b (counted pkt)) a' p kept_b (disc ++ out)
              pkt)
          (handed_whole (sa 0) addr_b (new_to public_key_request a_id b_id (sa 0).raw_packet)
            (apart.receives_a 0).reliable)
          received in
      (
        p,
        course o a.net addr_b sa ta apart.party_a.own apart.party_b.own.public (t_b 1).session_key
            of_b p kept_b first_a a' (datagram addr_b (counted pkt)) for_b.secret for_b.update
            for_b.final cbc inverts apart.serves_a apart.told_a apart.party_a.id_fits
            apart.party_b.id_fits (apart.receives_a 0).room for_b.wraps for_b.encrypts received',
      )

  abbrev pub CourseOfB : ℕ → Receiver → Type 0
  CourseOfB q b1 =
      Course o b.net addr_a s_b t_b apart.party_b.own apart.party_a.own.public (ta 1).session_key
        of_a q kept_a first_b b1 (datagram addr_a (counted of_a.request)) for_a.secret for_a.update
        for_a.final

  pub joins_a : (q : ℕ) (b1 : Receiver) → Peer b.net addr_a q kept_a first_b b1 → CourseOfB q b1
  unfolding new_to new_node_at offer update_last_contact
  joins_a q b1 peer =
      course o b.net addr_a s_b t_b apart.party_b.own apart.party_a.own.public (ta 1).session_key
        of_a q kept_a first_b b1 (datagram addr_a (counted of_a.request)) for_a.secret for_a.update
        for_a.final cbc inverts (λ i. apart.serves_b (suc i)) apart.told_b apart.party_b.id_fits
        apart.party_a.id_fits (apart.receives_b 0).room for_a.wraps for_a.encrypts
        (clear_comes o (s_b 0) b.net addr_a of_a.request q kept_a first_b b1 of_a.request_proper
          peer)
