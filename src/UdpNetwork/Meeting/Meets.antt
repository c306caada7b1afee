-- ===== src/UdpNetwork/Meeting/Meets.antt =====
-- src/UDPNetwork.cpp: from the discovery of one node by another to a connection of both.
use kapua.Prelude.{
  ℕ, zero, suc, ◌-◌, ◌≤◌, ◌<◌, take, get_elem?, leb, Bool, ◌≡◌, refl, arith, sym, ◌∙◌, true, List,
  [], ◌∷◌, ◌++◌, some,
}
use kapua.Prelude.Maps.{find}
use kapua.Prelude.Results.{ok}
use kapua.OpenSsl.{OpenSsl, IsCbc, Inverts}
use kapua.Address.{SockaddrHashable, htons, find_addr}
use kapua.Node.{Node, connected, new_node_at, update_last_contact}
use kapua.Protocol.{new_to}
use kapua.UdpNetwork.State.{System, Datagram}
use kapua.UdpNetwork.Receive.{Receiver, datagram}
use kapua.UdpNetwork.Send.{counted}
use kapua.UdpNetwork.Service.{
  Discovery, discover_lem, take_packet, broadcast_address, discovery_bytes,
}
use kapua.UdpNetwork.Meeting.{World, is_for, IsFair, exchange, meeting}
use kapua.UdpNetwork.Meeting.Peer.{Peer}
use kapua.UdpNetwork.Meeting.Offers.{IsWilling, sealed, offer}
use kapua.UdpNetwork.Meeting.Turns.{sent_by_a, sent_by_b}
use kapua.UdpNetwork.Meeting.Interleaving.{is_for_self, is_for_broadcast, exchange-IsFair}
use kapua.UdpNetwork.Meeting.Sides.{
  Apart, Scene, announced, kept_a, first_b, of_a, of_b, CourseOfA, CourseOfB, discovered, joins_a,
  joins_b,
}

-- Each node lists the other under its address, connected, and encrypts with the session key that the
-- other decrypts with.
pub record Joined (addr_a addr_b : SockaddrHashable) (w : World) : Type 0 where
  pub p : ℕ
  pub q : ℕ
  pub other_b : Node
  pub other_a : Node
  pub listed_b : find_addr addr_b w.a.net.core.nodes_by_addr ≡ some p
  pub there_b : find p w.a.net.core.heap ≡ some other_b
  pub listed_a : find_addr addr_a w.b.net.core.nodes_by_addr ≡ some q
  pub there_a : find q w.b.net.core.heap ≡ some other_a
  pub connected_b : other_b.state ≡ connected
  pub connected_a : other_a.state ≡ connected
  pub to_b : other_b.aes_context_tx ≡ other_a.aes_context_rx
  pub to_a : other_a.aes_context_tx ≡ other_b.aes_context_rx

module _ (m : Scene) where
  open m use {
    o, a, b, addr_a, addr_b, port, d, sa, ta, sb, tb, cbc, inverts, apart, for_b, for_a, a', alone,
    listens,
  }

  -- All that each node sends.
  abbrev all_a : List Datagram
  all_a =
      (broadcast_address port, discovery_bytes d a.net)
      ∷ (addr_b, counted (of_a m).request)
      ∷ (addr_b, counted (of_a m).reply)
      ∷ (addr_b, counted (of_a m).context)
      ∷ (addr_b, (of_a m).iv ++ ((of_a m).update ++ (of_a m).final))
      ∷ []

  abbrev all_b : List Datagram
  all_b =
      (addr_a, counted (of_b m).request)
      ∷ (addr_a, counted (of_b m).reply)
      ∷ (addr_a, counted (of_b m).context)
      ∷ (addr_a, (of_b m).iv ++ ((of_b m).update ++ (of_b m).final))
      ∷ []

  abbrev states_of_a : (p : ℕ) → CourseOfA m p → ℕ → Receiver
  states_of_a p c zero = a'
  states_of_a p c (suc zero) = c.r1
  states_of_a p c (suc (suc zero)) = c.r2
  states_of_a p c (suc (suc (suc zero))) = c.r3
  states_of_a p c (suc (suc (suc (suc i)))) = c.r4

  abbrev states_of_b : (q : ℕ) (b1 : Receiver) → CourseOfB m q b1 → ℕ → Receiver
  states_of_b q b1 c zero = b
  states_of_b q b1 c (suc zero) = b1
  states_of_b q b1 c (suc (suc zero)) = c.r1
  states_of_b q b1 c (suc (suc (suc zero))) = c.r2
  states_of_b q b1 c (suc (suc (suc (suc zero)))) = c.r3
  states_of_b q b1 c (suc (suc (suc (suc (suc i))))) = c.r4

  sent_of_a :
      (p : ℕ) (c : CourseOfA m p) (i : ℕ)
      → i ≤ 4
      → (states_of_a p c i).net.sent ≡ take (sent_by_a i) all_a
  unfolding new_to new_node_at offer
  sent_of_a p c zero h = alone.sent
  sent_of_a p c (suc zero) h = c.sent1
  sent_of_a p c (suc (suc zero)) h = c.sent2
  sent_of_a p c (suc (suc (suc zero))) h = c.sent3
  sent_of_a p c (suc (suc (suc (suc zero)))) h = c.sent4
  sent_of_a p c (suc (suc (suc (suc (suc k))))) h = absurd (omega arith)

  taken_of_a :
      (p : ℕ) (c : CourseOfA m p) (i : ℕ)
      → i < 4
      → (to : SockaddrHashable) × (bytes : List ℕ) × (get_elem? all_b i ≡ some (to, bytes))
        × (is_for to addr_a ≡ true)
        × (take_packet o (sa i) (ta i) (datagram addr_b bytes) (states_of_a p c i)
            ≡ ok (states_of_a p c (suc i)))
  unfolding offer
  taken_of_a p c zero h =
      (addr_a, counted (of_b m).request, refl, is_for_self addr_a, c.takes_request)
  taken_of_a p c (suc zero) h =
      (addr_a, counted (of_b m).reply, refl, is_for_self addr_a, c.takes_reply)
  taken_of_a p c (suc (suc zero)) h =
      (addr_a, counted (of_b m).context, refl, is_for_self addr_a, c.takes_context)
  taken_of_a p c (suc (suc (suc zero))) h = (
    addr_a,
    (of_b m).iv ++ ((of_b m).update ++ (of_b m).final),
    refl,
    is_for_self addr_a,
    c.takes_confirmation,
  )
  taken_of_a p c (suc (suc (suc (suc k)))) h = absurd (omega arith)

  sent_of_b :
      (q : ℕ) (b1 : Receiver) (c : CourseOfB m q b1)
      → Peer b.net addr_a q (kept_a m) (first_b m) b1
      → (i : ℕ) → i ≤ 5
      → (states_of_b q b1 c i).net.sent ≡ take (sent_by_b i) all_b
  unfolding new_to new_node_at offer update_last_contact
  sent_of_b q b1 c peer zero h = apart.alone_b.sent
  sent_of_b q b1 c peer (suc zero) h = peer.sent
  sent_of_b q b1 c peer (suc (suc zero)) h = c.sent1
  sent_of_b q b1 c peer (suc (suc (suc zero))) h = c.sent2
  sent_of_b q b1 c peer (suc (suc (suc (suc zero)))) h = c.sent3
  sent_of_b q b1 c peer (suc (suc (suc (suc (suc zero))))) h = c.sent4
  sent_of_b q b1 c peer (suc (suc (suc (suc (suc (suc k)))))) h = absurd (omega arith)

  taken_of_b :
      (q : ℕ) (b1 : Receiver) (c : CourseOfB m q b1)
      → take_packet o (sb 0) (tb 0) (datagram addr_a (discovery_bytes d a.net)) b ≡ ok b1
      → (i : ℕ) → i < 5
      → (to : SockaddrHashable) × (bytes : List ℕ) × (get_elem? all_a i ≡ some (to, bytes))
        × (is_for to addr_b ≡ true)
        × (take_packet o (sb i) (tb i) (datagram addr_a bytes) (states_of_b q b1 c i)
            ≡ ok (states_of_b q b1 c (suc i)))
  unfolding offer
  taken_of_b q b1 c takes zero h = (
    broadcast_address port,
    discovery_bytes d a.net,
    refl,
    is_for_broadcast port addr_b listens,
    takes,
  )
  taken_of_b q b1 c takes (suc zero) h =
      (addr_b, counted (of_a m).request, refl, is_for_self addr_b, c.takes_request)
  taken_of_b q b1 c takes (suc (suc zero)) h =
      (addr_b, counted (of_a m).reply, refl, is_for_self addr_b, c.takes_reply)
  taken_of_b q b1 c takes (suc (suc (suc zero))) h =
      (addr_b, counted (of_a m).context, refl, is_for_self addr_b, c.takes_context)
  taken_of_b q b1 c takes (suc (suc (suc (suc zero)))) h = (
    addr_b,
    (of_a m).iv ++ ((of_a m).update ++ (of_a m).final),
    refl,
    is_for_self addr_b,
    c.takes_confirmation,
  )
  taken_of_b q b1 c takes (suc (suc (suc (suc (suc k))))) h = absurd (omega arith)

  abbrev start : World
  start = record { a = a'; b = b; taken_by_a = 0; taken_by_b = 0 }

  discovered_joins :
      (ts : List Bool)
      → IsFair 9 ts
      → (w : World) × (exchange o addr_a addr_b sa ta sb tb ts start ≡ ok w)
        × Joined addr_a addr_b w
  discovered_joins ts fair =
      let (b1, q, takes, peer) = discovered m in
      let (p, ca) = joins_b m in
      let cb = joins_a m q b1 peer in
      (
        record { a = ca.r4; b = cb.r4; taken_by_a = 4; taken_by_b = 5 },
        exchange-IsFair o addr_a addr_b sa ta sb tb (states_of_a p ca) (states_of_b q b1 cb) all_a
            all_b (record { sent = sent_of_a p ca; takes = taken_of_a p ca })
            (record { sent = sent_of_b q b1 cb peer; takes = taken_of_b q b1 cb takes }) ts fair,
        record {
          p = p;
          q = q;
          other_b = ca.node;
          other_a = cb.node;
          listed_b = ca.listed;
          there_b = ca.there;
          listed_a = cb.listed;
          there_a = cb.there;
          connected_b = ca.connects;
          connected_a = cb.connects;
          to_b = ca.sends_with ∙ sym cb.receives_with;
          to_a = cb.sends_with ∙ sym ca.receives_with;
        },
      )

-- Two nodes that do not know each other, of which the first broadcasts its discovery, as that is enabled
-- and due, to the port of the second, and that then take each other's datagrams in the order of sending, as
-- far as they are for the address of the one that takes them: in whatever order the two have their turns,
-- with one for each in each of nine periods, no call throws or leaves a buffer, and in the end each node
-- lists the other under its address as connected, and encrypts with the session key that the other
-- decrypts with. The two have different identities of 64 bits, and each has an RSA pair whose public key
-- fits a packet and is read back, and with which a session key is encrypted into the data of a packet and
-- decrypted again; the uninitialised variable that OpenSSL takes for the size of the buffer it decrypts to
-- happens to hold, at either node, at least the size of its private key; the cipher is in CBC mode, its
-- decryption inverts its encryption, and its calls succeed; `sendto` sends every message whole; a node and
-- a packet have the memory that their types say; no vector of 32 random bytes begins with the magic
-- number; no other thread holds the mutex of a registry, and neither node has sent anything before.
pub discovery_connects :
    (o : OpenSsl) (a b : Receiver) (addr_a addr_b : SockaddrHashable) (d : System)
    (sa ta sb tb : ℕ → System) (settings : Discovery) (port now last : ℕ) (ts : List Bool)
    → IsCbc o
    → Inverts o
    → IsWilling o
    → Apart o a b addr_a addr_b d sa ta sb tb
    → addr_b.sin_port ≡ htons port
    → settings.enable ≡ true
    → settings.interval_ms ≤ now - last
    → IsFair 9 ts
    → (w : World) × (meeting o addr_a addr_b sa ta sb tb d settings port now last ts a b ≡ ok w)
      × Joined addr_a addr_b w
unfolding meeting
discovery_connects o a b addr_a addr_b d sa ta sb tb settings port now last ts cbc inverts willing
      apart at_port on due fair =
    let for_b =
      sealed o ta a.net.core.my_id b.net.core.my_id b.net apart.party_b willing apart.serves_a in
    let for_a =
      sealed o (λ i. tb (suc i)) b.net.core.my_id a.net.core.my_id a.net apart.party_a willing
        (λ i. apart.serves_b (suc i)) in
    let m : Scene = record {
      o = o;
      a = a;
      b = b;
      addr_a = addr_a;
      addr_b = addr_b;
      port = port;
      d = d;
      sa = sa;
      ta = ta;
      sb = sb;
      tb = tb;
      cbc = cbc;
      inverts = inverts;
      apart = apart;
      listens = at_port;
      for_b = for_b;
      for_a = for_a;
      a' = _;
      alone = announced d port a addr_b apart.alone_a;
    } in
    let (w, runs, joined) = discovered_joins m ts fair in
    let wait : leb settings.interval_ms (now - last) ≡ true = ground (arith, due) in
    let sends =
      discover_lem o d settings port now last _ a.net on
        (apart.announces.reliable (broadcast_address port) (discovery_bytes d a.net)) in
    (w, rw (sends, wait) runs, joined)
