-- ===== src/UdpNetwork/Evolution.antt =====
-- src/UDPNetwork.cpp and src/Core.cpp: what the network's loop keeps of the registry that it shares with
-- the core.
use kapua.Prelude.{
  ℕ, ◌≡◌, refl, sym, ap, ◌∙◌, subst, false, Option, none, some, inl, inr, ◌==◌, arith, Bool-cases,
  Option-cases, ◌<◌,
}
use kapua.Prelude.Maps.{find, assign, find-assign, find-insert, insert}
use kapua.Prelude.Results.{ok}
use kapua.OpenSsl.{OpenSsl}
use kapua.Address.{SockaddrHashable, addr_eq}
use kapua.Node.{Node}
use kapua.Core.{Core}
use kapua.Core.Registry.{Inv, added, still_there, added-Inv}
use kapua.Protocol.{Packet}
use kapua.UdpNetwork.State.{System, Network}
use kapua.UdpNetwork.Handshake.{process_packet-Step}
use kapua.UdpNetwork.Process.{process_packet}

-- A registry between two calls.
pub record Sound (c : Core) : Type 0 where
  pub inv : Inv c
  pub free : c.nodes_locked ≡ false

-- What a later registry has of an earlier one: the node's own identity and keys, all entries by
-- identity, and all nodes where they were, with their identities and addresses.
pub record Extends (c d : Core) : Type 0 where
  pub my_id : d.my_id ≡ c.my_id
  pub keys : d.keys ≡ c.keys
  pub entries : (id p : ℕ) → find id c.nodes ≡ some p → find id d.nodes ≡ some p
  pub nodes :
      (p : ℕ) (n : Node)
      → find p c.heap ≡ some n
      → (m : Node) × (find p d.heap ≡ some m) × (m.id ≡ n.id) × (m.addr ≡ n.addr)

abbrev pub Evolves : Core → Core → Type 0
Evolves c d = Sound d × Extends c d

pub Evolves-refl : (c : Core) → Sound c → Evolves c c
Evolves-refl c s = (
  s,
  record { my_id = refl; keys = refl; entries = λ id p e. e; nodes = λ p n e. (n, e, refl, refl) },
)

pub Evolves-trans : {a b c : Core} → Evolves a b → Evolves b c → Evolves a c
Evolves-trans (s, x) (t, y) = (
  t,
  record {
    my_id = y.my_id ∙ x.my_id;
    keys = y.keys ∙ x.keys;
    entries = λ id p e. y.entries id p (x.entries id p e);
    nodes = λ p n e.
        let (m, f, i, j) = x.nodes p n e in
        let (k, g, i', j') = y.nodes p m f in (k, g, i' ∙ i, j' ∙ j);
  },
)

-- Writing to a node that lives, without its identity and its address.
module _ (c : Core) (p : ℕ) (n m : Node) (s : Sound c) (lives : find p c.heap ≡ some n)
    (id : m.id ≡ n.id) (addr : m.addr ≡ n.addr) where
  abbrev written : Core
  written = record c { heap = assign p m c.heap }

  written_nodes :
      (q : ℕ) (k : Node)
      → find q c.heap ≡ some k
      → (l : Node) × (find q written.heap ≡ some l) × (l.id ≡ k.id) × (l.addr ≡ k.addr)
  written_nodes q k e = elim (Bool-cases (p == q)) [
    | inr h ↦ (k, ground (arith, find-assign p q m c.heap, h, e), refl, refl)
    | inl h ↦
        let same : n ≡ k = ground (arith, lives, e, h) in
        (
          m,
          ground (arith, find-assign p q m c.heap, h),
          id ∙ ap (λ (x : Node). x.id) same,
          addr ∙ ap (λ (x : Node). x.addr) same,
        )
  ]

  written_fresh : (q : ℕ) (k : Node) → find q written.heap ≡ some k → q < c.next_pointer
  written_fresh q k e =
      ground (arith, find-assign p q m c.heap, s.inv.fresh p n lives, s.inv.fresh q k)

  written-Inv : Inv written
  written-Inv = record {
    distinct = s.inv.distinct;
    by_id = λ j q e.
        let (k, f, i) = s.inv.by_id j q e in
        let (l, g, i', _) = written_nodes q k f in (l, g, i' ∙ i);
    by_addr = λ a q e.
        let (k, f, i) = s.inv.by_addr a q e in
        let (l, g, _, a') = written_nodes q k f in (l, g, ap (λ x. addr_eq x a) a' ∙ i);
    fresh = written_fresh;
  }

  written-Evolves : Evolves c written
  written-Evolves = (
    record { inv = written-Inv; free = s.free },
    record { my_id = refl; keys = refl; entries = λ j q e. e; nodes = written_nodes },
  )

entry_stays :
    (id j p q : ℕ) (c : Core) → find j c.nodes ≡ some p → find j (insert id q c.nodes) ≡ some p
entry_stays id j p q c e = elim (Option-cases (find id c.nodes)) [
  | inl f ↦ ground (arith, find-insert id j q c.nodes)
  | inr (w, f) ↦ ground (arith, find-insert id j q c.nodes)
]

pub added-Evolves :
    (raw : Node) (id : ℕ) (addr : SockaddrHashable) (c : Core)
    → Sound c
    → Evolves c (added raw id addr c)
added-Evolves raw id addr c s = (
  record { inv = added-Inv raw id addr c s.inv; free = refl },
  record {
    my_id = refl;
    keys = refl;
    entries = λ j p e. entry_stays id j p c.next_pointer c e;
    nodes = λ p n e. (n, still_there raw id addr c s.inv p n e, refl, refl);
  },
)

-- A packet that is handled to the end leaves the registry sound, with all that it had.
pub process_packet-Evolves :
    (o : OpenSsl) (sys : System) (p : Option ℕ) (pkt : Packet) (net after : Network)
    → Sound net.core
    → process_packet o sys p pkt net ≡ ok after
    → Evolves net.core after.core
unfolding process_packet
process_packet-Evolves o sys none pkt net after s h =
    subst (λ c. Evolves net.core c) (ground (arith, h)) (Evolves-refl net.core s)
process_packet-Evolves o sys (some p) pkt net after s h =
    let (n, m, lives, _, id, addr, core) = process_packet-Step o sys p pkt net after h in
    subst (λ c. Evolves net.core c) (sym core) (written-Evolves net.core p n m s lives id addr)
