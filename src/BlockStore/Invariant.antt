-- ===== src/BlockStore/Invariant.antt =====
-- src/DistributedBlockStore.cpp: what holds between two operations of the store.
use kapua.Prelude.{
  ℕ, ◌≡◌, refl, Bool, true, false, inl, inr, List, [], ◌∷◌, Option, none, some, ◌==◌, if◌then◌else◌,
  elem, arith, Option-cases,
}
use kapua.Prelude.Maps.{Distinct, assign-Distinct, Map, find, find-assign}
use kapua.BlockStore.Ring.{
  Ascending, set_erase, set_insert-Ascending, set_erase-Ascending, elem-set_insert, elem-set_erase,
}
use kapua.BlockStore.{
  DistributedBlockStore, add_virtual_ids, add_dbs_node, new, remove_loop, remove_dbs_node,
  update_dbs_node_capacity,
}

abbrev pub is_some {ℓ} : {A : Type ℓ} → Option A → Bool
is_some none = false
is_some (some a) = true

pub record Inv (s : DistributedBlockStore) : Type 0 where
  pub ascending : Ascending s.ring
  pub distinct : Distinct s.virtual_to_real
  pub domain : (v : ℕ) → elem v s.ring ≡ is_some (find v s.virtual_to_real)

-- What `remove_dbs_node(id)` leaves of the owner of a virtual node.
abbrev pub without_owner : ℕ → Option ℕ → Option ℕ
without_owner id none = none
without_owner id (some real) = if real == id then none else some real

pub find-remove_loop :
    (id v : ℕ) (m : Map ℕ) (ring : List ℕ)
    → Distinct m
    → find v (remove_loop id m ring).0 ≡ without_owner id (find v m)
unfolding remove_loop find
find-remove_loop id v [] ring d = refl
find-remove_loop id v ((k, real) ∷ m) ring d = ground (
  arith,
  find-remove_loop id v m (if real == id then set_erase k ring else ring) d.1,
  find-remove_loop id k m (if real == id then set_erase k ring else ring) d.1,
)

abbrev pub owned_by : ℕ → Option ℕ → Bool
owned_by id none = false
owned_by id (some real) = real == id

remove_loop-Ascending :
    (id : ℕ) (m : Map ℕ) (ring : List ℕ) → Ascending ring → Ascending (remove_loop id m ring).1
unfolding remove_loop
remove_loop-Ascending id [] ring a = a
remove_loop-Ascending id ((k, real) ∷ m) ring a = ground (
  arith,
  remove_loop-Ascending id m (if real == id then set_erase k ring else ring),
  set_erase-Ascending k ring,
)

remove_loop-Distinct :
    (id : ℕ) (m : Map ℕ) (ring : List ℕ) → Distinct m → Distinct (remove_loop id m ring).0
unfolding remove_loop
remove_loop-Distinct id [] ring d = tt
remove_loop-Distinct id ((k, real) ∷ m) ring d = ground (
  arith,
  remove_loop-Distinct id m (if real == id then set_erase k ring else ring) d.1,
  find-remove_loop id k m (if real == id then set_erase k ring else ring) d.1,
)

-- The ring loses the virtual nodes of `id`, and no others.
pub elem-remove_loop :
    (id v : ℕ) (m : Map ℕ) (ring : List ℕ)
    → Ascending ring
    → Distinct m
    → elem v (remove_loop id m ring).1 ≡ (if owned_by id (find v m) then false else elem v ring)
unfolding remove_loop find
elem-remove_loop id v [] ring a d = refl
elem-remove_loop id v ((k, real) ∷ m) ring a d = ground (
  arith,
  elem-remove_loop id v m (if real == id then set_erase k ring else ring),
  set_erase-Ascending k ring,
  elem-set_erase v k ring a,
)

add_virtual_ids-Inv :
    (id : ℕ) (vids : List ℕ) (s : DistributedBlockStore) → Inv s → Inv (add_virtual_ids id vids s)
unfolding add_virtual_ids
add_virtual_ids-Inv id [] s i = i
add_virtual_ids-Inv id (vid ∷ vids) s i = add_virtual_ids-Inv id vids _ (record {
  ascending = set_insert-Ascending vid s.ring i.ascending;
  distinct = assign-Distinct vid id s.virtual_to_real i.distinct;
  domain = λ v.
      ground
        (arith, elem-set_insert v vid s.ring, find-assign vid v id s.virtual_to_real, i.domain v);
})

add_dbs_node-Inv :
    (id : ℕ) (vids : List ℕ) (capacity : ℕ) (s : DistributedBlockStore)
    → Inv s
    → Inv (add_dbs_node id vids capacity s)
unfolding add_dbs_node
add_dbs_node-Inv id vids capacity s i =
    let j = add_virtual_ids-Inv id vids s i in
    record { ascending = j.ascending; distinct = j.distinct; domain = j.domain }

pub new-Inv : (id : ℕ) (vids : List ℕ) (capacity : ℕ) → Inv (new id vids capacity)
unfolding new find
new-Inv id vids capacity =
    add_dbs_node-Inv id vids capacity _
      (record { ascending = tt; distinct = tt; domain = λ v. refl })

remove_dbs_node-Inv : (id : ℕ) (s : DistributedBlockStore) → Inv s → Inv (remove_dbs_node id s)
unfolding remove_dbs_node
remove_dbs_node-Inv id s i = record {
  ascending = remove_loop-Ascending id s.virtual_to_real s.ring i.ascending;
  distinct = remove_loop-Distinct id s.virtual_to_real s.ring i.distinct;
  domain = λ v. ground (
    arith,
    elem-remove_loop id v s.virtual_to_real s.ring i.ascending i.distinct,
    find-remove_loop id v s.virtual_to_real s.ring i.distinct,
    i.domain v,
  );
}

update_dbs_node_capacity-Inv :
    (id capacity : ℕ) (s : DistributedBlockStore)
    → Inv s
    → Inv (update_dbs_node_capacity id capacity s)
unfolding update_dbs_node_capacity
update_dbs_node_capacity-Inv id capacity s i = elim (Option-cases (find id s.node_capacities)) [
  | inl e ↦ rw (e, update_dbs_node_capacity) i
  | inr (c, e) ↦
      rw (e, update_dbs_node_capacity)
        (record { ascending = i.ascending; distinct = i.distinct; domain = i.domain })
]

-- The operations that change a store.
pub data Operation : Type 0 where
  adds : ℕ → List ℕ → ℕ → Operation
  removes : ℕ → Operation
  updates : ℕ → ℕ → Operation

abbrev pub apply : Operation → DistributedBlockStore → DistributedBlockStore
apply (adds id vids capacity) s = add_dbs_node id vids capacity s
apply (removes id) s = remove_dbs_node id s
apply (updates id capacity) s = update_dbs_node_capacity id capacity s

abbrev pub run : List Operation → DistributedBlockStore → DistributedBlockStore
run [] s = s
run (o ∷ os) s = run os (apply o s)

pub apply-Inv : (o : Operation) (s : DistributedBlockStore) → Inv s → Inv (apply o s)
apply-Inv (adds id vids capacity) s i = add_dbs_node-Inv id vids capacity s i
apply-Inv (removes id) s i = remove_dbs_node-Inv id s i
apply-Inv (updates id capacity) s i = update_dbs_node_capacity-Inv id capacity s i

-- In a store whose ring is ascending, whose map has distinct keys, and whose ring holds exactly the
-- map's keys, all three still hold after any sequence of additions, removals and capacity updates.
pub run-Inv : (os : List Operation) (s : DistributedBlockStore) → Inv s → Inv (run os s)
run-Inv [] s i = i
run-Inv (o ∷ os) s i = run-Inv os (apply o s) (apply-Inv o s i)
