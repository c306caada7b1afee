-- ===== src/Core/Registry.antt =====
-- src/Core.cpp: what the registry of nodes promises, and where it does not keep the promise.
use kapua.Prelude.{
  ℕ, suc, ◌<◌, ◌≡◌, refl, true, false, ◌⊎◌, inl, inr, [], ◌∷◌, none, some, ◌==◌, if◌then◌else◌,
  arith, Option-cases,
}
use kapua.Prelude.Maps.{
  Distinct, insert-Distinct, Map, find, insert, assign, find-assign, find-insert,
}
use kapua.Prelude.Results.{ok, undefined, relock}
use kapua.Address.{
  SockaddrHashable, addr_eq, AddressMap, find_addr, insert_addr, find_addr-insert_addr,
}
use kapua.Node.{Node, new_node_at}
use kapua.Core.{Core, add_node, find_node, find_node_at, remove_node}

-- The keys of the map by identity are distinct, both maps lead to nodes that live, under the identity or address that is the key, and no node
-- lives at a pointer that is still to be handed out.
pub record Inv (c : Core) : Type 0 where
  pub distinct : Distinct c.nodes
  pub by_id :
      (id p : ℕ) → find id c.nodes ≡ some p → (n : Node) × (find p c.heap ≡ some n) × (n.id ≡ id)
  pub by_addr :
      (a : SockaddrHashable) (p : ℕ)
      → find_addr a c.nodes_by_addr ≡ some p
      → (n : Node) × (find p c.heap ≡ some n) × (addr_eq n.addr a ≡ true)
  pub fresh : (p : ℕ) (n : Node) → find p c.heap ≡ some n → p < c.next_pointer

-- `add_node` from an unlocked registry, step by step.
abbrev pub added : Node → ℕ → SockaddrHashable → Core → Core
added raw id addr c = record c {
  heap = assign c.next_pointer (new_node_at raw id addr) c.heap;
  next_pointer = suc c.next_pointer;
  nodes = insert id c.next_pointer c.nodes;
  nodes_by_addr = insert_addr addr c.next_pointer c.nodes_by_addr;
  nodes_locked = false;
}

pub add_node_lem :
    (raw : Node) (id : ℕ) (addr : SockaddrHashable) (c : Core)
    → c.nodes_locked ≡ false
    → add_node raw id addr c ≡ ok (c.next_pointer, added raw id addr c)
unfolding add_node
add_node_lem raw id addr c e = rw e

-- Removing a node never returns: `remove_node` holds the mutex when it calls `find_node`, which locks
-- it again.
pub remove_node-relock : (id : ℕ) (c : Core) → remove_node id c ≡ undefined relock
unfolding remove_node
remove_node-relock id c = ground arith

-- Equal keys have one entry.
same_key :
    (a b : SockaddrHashable) (m : AddressMap) → addr_eq a b ≡ true → find_addr a m ≡ find_addr b m
unfolding find_addr addr_eq
same_key a b [] e = refl
same_key a b ((d, p) ∷ m) e = ground (arith, same_key a b m)

-- An entry after `insert` is an old one, or the new one.
find-insert_cases :
    (k j p q : ℕ) (m : Map ℕ)
    → find j (insert k q m) ≡ some p
    → (find j m ≡ some p) ⊎ ((k ≡ j) × (p ≡ q))
find-insert_cases k j p q m h = elim (Option-cases (find k m)) [
  | inl e ↦ ground (arith, find-insert k j q m)
  | inr (w, e) ↦ ground (arith, find-insert k j q m)
]

find_addr-insert_cases :
    (a b : SockaddrHashable) (p q : ℕ) (m : AddressMap)
    → find_addr b (insert_addr a q m) ≡ some p
    → (find_addr b m ≡ some p) ⊎ ((addr_eq a b ≡ true) × (p ≡ q))
find_addr-insert_cases a b p q m h = elim (Option-cases (find_addr a m)) [
  | inl e ↦ ground (arith, find_addr-insert_addr a b q m)
  | inr (w, e) ↦ ground (arith, find_addr-insert_addr a b q m, same_key a b m)
]

module _ (raw : Node) (id : ℕ) (addr : SockaddrHashable) (c : Core) (i : Inv c) where
  -- Nodes that live stay as they are, and the new one lives at the next pointer.
  pub still_there :
      (p : ℕ) (n : Node) → find p c.heap ≡ some n → find p (added raw id addr c).heap ≡ some n
  still_there p n h =
      ground (arith, find-assign c.next_pointer p (new_node_at raw id addr) c.heap, i.fresh p n h)

  pub new_there : find c.next_pointer (added raw id addr c).heap ≡ some (new_node_at raw id addr)
  new_there =
      ground (arith, find-assign c.next_pointer c.next_pointer (new_node_at raw id addr) c.heap)

  added_by_id :
      (j p : ℕ)
      → find j (added raw id addr c).nodes ≡ some p
      → (n : Node) × (find p (added raw id addr c).heap ≡ some n) × (n.id ≡ j)
  unfolding new_node_at
  added_by_id j p h = elim (find-insert_cases id j p c.next_pointer c.nodes h) [
    | inl old ↦ let (n, e, same) = i.by_id j p old in (n, still_there p n e, same)
    | inr (same, e) ↦ (new_node_at raw id addr, rw e new_there, same)
  ]

  added_by_addr :
      (a : SockaddrHashable) (p : ℕ)
      → find_addr a (added raw id addr c).nodes_by_addr ≡ some p
      → (n : Node) × (find p (added raw id addr c).heap ≡ some n) × (addr_eq n.addr a ≡ true)
  unfolding new_node_at
  added_by_addr a p h = elim (find_addr-insert_cases addr a p c.next_pointer c.nodes_by_addr h) [
    | inl old ↦ let (n, e, same) = i.by_addr a p old in (n, still_there p n e, same)
    | inr (same, e) ↦ (new_node_at raw id addr, rw e new_there, same)
  ]

  added_fresh :
      (p : ℕ) (n : Node) → find p (added raw id addr c).heap ≡ some n → p < suc c.next_pointer
  added_fresh p n h = elim (Option-cases (find p c.heap)) [
    | inl e ↦ ground (arith, find-assign c.next_pointer p (new_node_at raw id addr) c.heap)
    | inr (m, e) ↦ omega (arith, i.fresh p m e)
  ]

  pub added-Inv : Inv (added raw id addr c)
  added-Inv = record {
    distinct = insert-Distinct id c.next_pointer c.nodes i.distinct;
    by_id = added_by_id;
    by_addr = added_by_addr;
    fresh = added_fresh;
  }

-- From an unlocked, well-formed registry `add_node` returns a pointer that no node had, the registry
-- is well-formed and unlocked afterwards, the new node lives there in the state Initialised with its
-- identity and address, and every other pointer leads where it led.
pub add_node-Inv :
    (raw : Node) (id q : ℕ) (addr : SockaddrHashable) (c : Core)
    → Inv c
    → c.nodes_locked ≡ false
    → (p : ℕ) × (d : Core) × (add_node raw id addr c ≡ ok (p, d))
      × Inv d
      × (d.nodes_locked ≡ false)
      × (find p c.heap ≡ none)
      × (find q d.heap ≡ (if p == q then some (new_node_at raw id addr) else find q c.heap))
add_node-Inv raw id q addr c i free = (
  c.next_pointer,
  added raw id addr c,
  add_node_lem raw id addr c free,
  added-Inv raw id addr c i,
  refl,
  unused,
  find-assign c.next_pointer q (new_node_at raw id addr) c.heap,
)
  where
    unused : find c.next_pointer c.heap ≡ none
    unused = elim (Option-cases (find c.next_pointer c.heap)) [
      | inl e ↦ e
      | inr (n, e) ↦ absurd (omega (arith, i.fresh c.next_pointer n e))
    ]

-- On an unlocked registry `add_node` returns a pointer, and a lookup after it leaves the registry as it
-- is: an identity or an address that was unknown leads to the new node, one that was known leads where
-- it led, and so do all others.
pub find_node-add_node :
    (raw : Node) (id j : ℕ) (addr a : SockaddrHashable) (c : Core)
    → c.nodes_locked ≡ false
    → let d = added raw id addr c in
      (add_node raw id addr c ≡ ok (c.next_pointer, d))
      × (find_node j d
          ≡ ok (
            if id == j
                then (elim (find id c.nodes) [ none ↦ some c.next_pointer | some p ↦ some p ])
                else find j c.nodes,
            d,
          ))
      × (find_node_at a d
          ≡ ok (
            if addr_eq addr a
                then (elim (find_addr addr c.nodes_by_addr) [
                  | none ↦ some c.next_pointer
                  | some p ↦ some p
                ])
                else find_addr a c.nodes_by_addr,
            d,
          ))
unfolding find_node find_node_at
find_node-add_node raw id j addr a c free =
    (add_node_lem raw id addr c free, rw find-insert, rw find_addr-insert_addr)
