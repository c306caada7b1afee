-- ===== src/UdpNetwork/Reception.antt =====
-- src/UDPNetwork.cpp: which packets `_receive` hands on.
use kapua.Prelude.{
  ℕ, ◌≤◌, ◌≡◌, ◌≢◌, refl, ◌∙◌, Bool, true, false, List, Option, none, some, inl, inr, ltb, ◌==◌,
  length, take, arith, Bool-cases,
}
use kapua.Prelude.Results.{ok, ran_both}
use kapua.OpenSsl.{OpenSsl}
use kapua.Address.{SockaddrHashable, find_addr}
use kapua.Node.{Node}
use kapua.Core.{Core, add_node, find_node_at, deref}
use kapua.Core.Registry.{add_node_lem}
use kapua.Protocol.{Packet, of_bytes, check_version_valid, header_size, max_packet_size}
use kapua.UdpNetwork.State.{System}
use kapua.UdpNetwork.Send.{send}
use kapua.UdpNetwork.Receive.{
  Incoming, idle, failed, datagram, Receiver, recvfrom, open_packet, node_at, greet, greet_unknown,
  accept, after_open, take_in, receive,
}

-- What holds of a packet that `_receive` hands on: its version is compatible, it is not this node's
-- own, and it comes with a node.
pub record Accepted (r : Receiver) : Type 0 where
  pub version : check_version_valid false (of_bytes r.memory) ≡ true
  pub foreign : (of_bytes r.memory).from_id ≢ r.net.core.my_id
  pub node : r.node ≢ none

-- A call under the lock has found it free.
pub locked_fails :
    (raw : Node) (id : ℕ) (addr : SockaddrHashable) (c : Core) (x : ℕ × Core)
    → add_node raw id addr c ≡ ok x
    → c.nodes_locked ≡ false
unfolding add_node
locked_fails raw id addr c x h = ground arith

greet-keeps :
    (o : OpenSsl) (sys : System) (pkt : Packet) (r r' : Receiver)
    → greet o sys pkt r ≡ ok r'
    → (r'.memory ≡ r.memory) × (r'.net.core.my_id ≡ r.net.core.my_id) × (r'.node ≢ none)
unfolding greet
greet-keeps o sys pkt r r' h =
    let ((p, core), e, h1) =
      ran_both _ (add_node sys.raw_node pkt.from_id r.from_addr r.net.core) h in
    let free = locked_fails sys.raw_node pkt.from_id r.from_addr r.net.core (p, core) e in
    let (n, _, h2) = ran_both _ (deref p core) h1 in
    let (_, _, h3) = ran_both _ (send o sys (some n) _ r.from_addr) h2 in
    ground (arith, e, h3, add_node_lem sys.raw_node pkt.from_id r.from_addr r.net.core free)

greet_unknown-keeps :
    (o : OpenSsl) (sys : System) (pkt : Packet) (r r' : Receiver) (known : Option ℕ)
    → r.node ≡ known
    → greet_unknown o sys pkt r known ≡ ok r'
    → (r'.memory ≡ r.memory) × (r'.net.core.my_id ≡ r.net.core.my_id) × (r'.node ≢ none)
unfolding greet_unknown
greet_unknown-keeps o sys pkt r r' none e h = greet-keeps o sys pkt r r' h
greet_unknown-keeps o sys pkt r r' (some p) e h = ground arith

accept-Accepted :
    (o : OpenSsl) (sys : System) (r r' : Receiver)
    → accept o sys r ≡ ok (true, r')
    → Accepted r' × (r'.net.core.my_id ≡ r.net.core.my_id)
unfolding accept
accept-Accepted o sys r r' h = elim (Bool-cases (check_version_valid false (of_bytes r.memory))) [
  | inr v ↦ absurd (ground (arith, h, v))
  | inl v ↦ elim (Bool-cases ((of_bytes r.memory).from_id == r.net.core.my_id)) [
    | inl f ↦ absurd (ground (arith, h, v, f))
    | inr f ↦
        let (s, g, e) =
          ran_both _ (greet_unknown o sys (of_bytes r.memory) r r.node) (rw (v, f, accept) at h) in
        let (memory, id, found) = greet_unknown-keeps o sys (of_bytes r.memory) r s r.node refl g in
        let same : s ≡ r' = ground (arith, e) in
        (
          rw same at (
              let a : Accepted s = record {
                version = rw memory v;
                foreign = rw (memory, id) (ground (arith, f));
                node = found;
              } in
              a),
          rw same at id,
        )
  ]
]

after_open-Accepted :
    (o : OpenSsl) (sys : System) (r r' : Receiver) (opened : Bool × List ℕ)
    → after_open o sys r opened ≡ ok (true, r')
    → Accepted r' × (r'.net.core.my_id ≡ r.net.core.my_id)
unfolding after_open
after_open-Accepted o sys r r' (false, memory) h = absurd (ground arith)
after_open-Accepted o sys r r' (true, memory) h =
    accept-Accepted o sys (record r { memory = memory }) r' h

take_in-Accepted :
    (o : OpenSsl) (sys : System) (size : ℕ) (r r' : Receiver)
    → take_in o sys size r ≡ ok (true, r')
    → Accepted r' × (r'.net.core.my_id ≡ r.net.core.my_id)
unfolding take_in find_node_at
take_in-Accepted o sys size r r' h =
    let ((found, core), e, h1) = ran_both _ (find_node_at r.from_addr r.net.core) h in
    let (node, _, h2) = ran_both _ (node_at found _) h1 in
    let (opened, _, h3) = ran_both _ (open_packet o node r.memory size) h2 in
    let (accepted, id) =
      after_open-Accepted o sys (record r { net = record r.net { core = core }; node = found }) r'
        opened h3 in
    (accepted, id ∙ ground (arith, e))

-- A call of `_receive` that returns true has a datagram, or an error of `recvfrom` taken for one, of
-- at least a header's size; the packet has a compatible version and another sender than this node, and
-- there is a node for it. The call leaves this node's identity as it was.
pub receive-Accepted :
    (o : OpenSsl) (sys : System) (incoming : Incoming) (r r' : Receiver)
    → receive o sys incoming r ≡ ok (true, r')
    → (header_size ≤ (recvfrom incoming r).0) × Accepted r' × (r'.net.core.my_id ≡ r.net.core.my_id)
unfolding receive recvfrom
receive-Accepted o sys idle r r' h = absurd (ground arith)
receive-Accepted o sys failed r r' h =
    let (a, i) = take_in-Accepted o sys 65535 r r' h in (omega arith, a, i)
receive-Accepted o sys (datagram addr bytes) r r' h =
    let size = length (take max_packet_size bytes) in
    elim (Bool-cases (size == 0)) [
      | inl z ↦ absurd (ground (arith, h, z))
      | inr z ↦ elim (Bool-cases (ltb size header_size)) [
        | inl l ↦ absurd (ground (arith, h, z, l))
        | inr l ↦
            let (a, i) =
              take_in-Accepted o sys size (recvfrom (datagram addr bytes) r).1 r'
                (rw (z, l) at h) in
            (ground (arith, l), a, i)
      ]
    ]

-- The two tests of the size that a packet with a header passes.
pub header_sized : (n : ℕ) → header_size ≤ n → ((n == 0) ≡ false) × (ltb n header_size ≡ false)
header_sized n h = ground arith

-- The lock is free again after a lookup.
abbrev pub unlocked : Receiver → Receiver
unlocked r = record r { net = record r.net { core = record r.net.core { nodes_locked = false } } }

pub find_node_at_lem :
    (a : SockaddrHashable) (c : Core)
    → c.nodes_locked ≡ false
    → find_node_at a c ≡ ok (find_addr a c.nodes_by_addr, record c { nodes_locked = false })
unfolding find_node_at
find_node_at_lem a c free = rw free
