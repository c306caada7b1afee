-- ===== src/BlockStore/Owners.antt =====
-- src/DistributedBlockStore.cpp: the store as a function from virtual nodes to the nodes that own
-- them, and what each operation does to it.
use kapua.Prelude.{
  ℕ, ◌≡◌, refl, true, false, List, [], ◌∷◌, Option, none, some, ◌==◌, if◌then◌else◌, elem, arith,
  inl, inr, Option-cases,
}
use kapua.Prelude.Maps.{find, assign, find-assign, find-erase}
use kapua.BlockStore.Ring.{set_insert, elem-set_insert}
use kapua.BlockStore.Invariant.{Inv, without_owner, owned_by, find-remove_loop, elem-remove_loop}
use kapua.BlockStore.{
  DistributedBlockStore, add_virtual_ids, add_dbs_node, remove_dbs_node, update_dbs_node_capacity,
}

abbrev pub owner : DistributedBlockStore → ℕ → Option ℕ
owner s v = find v s.virtual_to_real

abbrev pub capacity_of : DistributedBlockStore → ℕ → Option (ℕ × ℕ)
capacity_of s id = find id s.node_capacities

owner-add_virtual_ids :
    (id v : ℕ) (vids : List ℕ) (s : DistributedBlockStore)
    → (owner (add_virtual_ids id vids s) v ≡ (if elem v vids then some id else owner s v))
      × (elem v (add_virtual_ids id vids s).ring ≡ (if elem v vids then true else elem v s.ring))
      × ((add_virtual_ids id vids s).node_capacities ≡ s.node_capacities)
unfolding add_virtual_ids
owner-add_virtual_ids id v [] s = (refl, refl, refl)
owner-add_virtual_ids id v (w ∷ vids) s = ground (
  arith,
  owner-add_virtual_ids id v vids
      (record s { ring = set_insert w s.ring; virtual_to_real = assign w id s.virtual_to_real }),
  elem-set_insert v w s.ring,
  find-assign w v id s.virtual_to_real,
)

-- Adding a node gives it every virtual node that it names, taken over from its owner if it had one,
-- puts those in the ring, leaves all other virtual nodes as they were, and sets the capacity of this
-- node alone, with nothing used.
pub owner-add_dbs_node :
    (id v n : ℕ) (vids : List ℕ) (capacity : ℕ) (s : DistributedBlockStore)
    → (owner (add_dbs_node id vids capacity s) v ≡ (if elem v vids then some id else owner s v))
      × (elem v (add_dbs_node id vids capacity s).ring
          ≡ (if elem v vids then true else elem v s.ring))
      × (capacity_of (add_dbs_node id vids capacity s) n
          ≡ (if id == n then some (capacity, 0) else capacity_of s n))
unfolding add_dbs_node
owner-add_dbs_node id v n vids capacity s = ground (
  arith,
  owner-add_virtual_ids id v vids s,
  find-assign id n (capacity, 0) (add_virtual_ids id vids s).node_capacities,
)

-- In a well-formed store, removing a node takes from map and ring exactly the virtual nodes that it
-- owns, leaves the owners of all others as they were, and forgets the capacity of this node alone.
pub owner-remove_dbs_node :
    (id v n : ℕ) (s : DistributedBlockStore)
    → Inv s
    → (owner (remove_dbs_node id s) v ≡ without_owner id (owner s v))
      × (elem v (remove_dbs_node id s).ring
          ≡ (if owned_by id (owner s v) then false else elem v s.ring))
      × (capacity_of (remove_dbs_node id s) n ≡ (if id == n then none else capacity_of s n))
unfolding remove_dbs_node
owner-remove_dbs_node id v n s i = (
  find-remove_loop id v s.virtual_to_real s.ring i.distinct,
  elem-remove_loop id v s.virtual_to_real s.ring i.ascending i.distinct,
  find-erase id n s.node_capacities,
)

abbrev pub with_capacity : ℕ → Option (ℕ × ℕ) → Option (ℕ × ℕ)
with_capacity capacity none = none
with_capacity capacity (some (old, used)) = some (capacity, used)

-- A capacity update changes the capacity of a known node and nothing else: what that node uses, the
-- other nodes, the owners and the ring stay, and an unknown node stays unknown.
pub capacity_of-update_dbs_node_capacity :
    (id n capacity : ℕ) (s : DistributedBlockStore)
    → let t = update_dbs_node_capacity id capacity s in
      (capacity_of t n
        ≡ (if id == n then with_capacity capacity (capacity_of s n) else capacity_of s n))
      × (t.ring ≡ s.ring)
      × (t.virtual_to_real ≡ s.virtual_to_real)
unfolding update_dbs_node_capacity
capacity_of-update_dbs_node_capacity id n capacity s = elim (Option-cases (capacity_of s id)) [
  | inl e ↦ rw (e, update_dbs_node_capacity) (ground arith)
  | inr ((old, used), e) ↦
      rw (e, update_dbs_node_capacity)
        (ground (arith, find-assign id n (capacity, used) s.node_capacities))
]
