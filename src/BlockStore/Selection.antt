-- ===== src/BlockStore/Selection.antt =====
-- src/DistributedBlockStore.cpp: what the entries that `get_dbs_nodes_for_block` returns have
-- in common, and how often one comes.
use native.Mathlib.Decide.{dec_lt}
use native.Mathlib.Nat.{add-zero, mod-eq_of_lt, mod-add-mod, add-mod_right}
use kapua.Prelude.{
  ℕ, zero, suc, ◌+◌, ◌%◌, ◌<◌, ◌≡◌, ◌≢◌, refl, ap, ◌∙◌, Bool, true, inl, inr, List, [], ◌∷◌, some,
  elem, keep, length, arith, Option-cases,
}
use kapua.Prelude.Results.{ok}
use kapua.BlockStore.Ring.{at, rank}
use kapua.BlockStore.Invariant.{Inv, removes, run-Inv}
use kapua.BlockStore.Owners.{owner, capacity_of, owner-remove_dbs_node}
use kapua.BlockStore.{DistributedBlockStore, remove_dbs_node, get_dbs_nodes_for_block}
use kapua.BlockStore.Lookup.{
  around, is_free, is_available, elem-at, next_place, start, get_dbs_nodes_for_block-around,
}

keep_sound :
    (p : ℕ → Bool) (v : ℕ) (xs : List ℕ)
    → elem v (keep p xs) ≡ true
    → (p v ≡ true) × (elem v xs ≡ true)
keep_sound p v [] h = cc
keep_sound p v (x ∷ xs) h = ground (arith, keep_sound p v xs)

around-elem :
    (n p v : ℕ) (ring : List ℕ)
    → p < length ring
    → elem v (around n p ring) ≡ true
    → elem v ring ≡ true
around-elem zero p v ring h e = cc
around-elem (suc n) p v ring h e = ground (
  arith,
  elem-at p ring h,
  around-elem n ((p + 1) % length ring) v ring (next_place (p + 1) (length ring) (omega arith)),
)

length-around : (n p : ℕ) (ring : List ℕ) → length (around n p ring) ≡ n
length-around zero p ring = refl
length-around (suc n) p ring = ap suc (length-around n ((p + 1) % length ring) ring)

available_owner :
    (s : DistributedBlockStore) (v : ℕ)
    → is_available s v ≡ true
    → (real : ℕ) × (owner s v ≡ some real) × (is_free (capacity_of s real) ≡ true)
available_owner s v h = elim (Option-cases (owner s v)) [
  | inl e ↦ ground arith
  | inr (real, e) ↦ (real, e, ground arith)
]

selected :
    (block_id : ℕ) (s : DistributedBlockStore)
    → 0 < length s.ring
    → Inv s
    → get_dbs_nodes_for_block s block_id
      ≡ ok (keep (is_available s) (around 5 (start block_id s.ring) s.ring))
selected block_id s h i = ground (arith, get_dbs_nodes_for_block-around block_id s i)

-- Every virtual node that the lookup in a well-formed store returns is in the ring, has an owner,
-- and that owner's use is below its capacity or its capacity is not known.
pub get_dbs_nodes_for_block_sound :
    (block_id v : ℕ) (s : DistributedBlockStore) (nodes : List ℕ)
    → Inv s
    → get_dbs_nodes_for_block s block_id ≡ ok nodes
    → elem v nodes ≡ true
    → (elem v s.ring ≡ true)
      × ((real : ℕ) × (owner s v ≡ some real) × (is_free (capacity_of s real) ≡ true))
get_dbs_nodes_for_block_sound block_id v s nodes i e h = elim (dec_lt 0 (length s.ring)) [
  | yes some_node ↦
      let walked = around 5 (start block_id s.ring) s.ring in
      let same : nodes ≡ keep (is_available s) walked = cc (selected block_id s some_node i) in
      let (free, at_step) = keep_sound (is_available s) v walked (rw same at h) in
      (
        around-elem 5 (start block_id s.ring) v s.ring
            (next_place (rank block_id s.ring) _ some_node) at_step,
        available_owner s v free,
      )
  | no empty ↦ ground (arith, get_dbs_nodes_for_block-around block_id s i)
]

at-around :
    (n p k : ℕ) (ring : List ℕ)
    → k < n
    → p < length ring
    → at (around n p ring) k ≡ at ring ((p + k) % length ring)
at-around zero p k ring h l = absurd (omega arith)
at-around (suc n) p zero ring h l = rw (add-zero, mod-eq_of_lt l)
at-around (suc n) p (suc k) ring h l =
    rw
      (
        at-around n ((p + 1) % length ring) k ring (omega arith)
            (next_place (p + 1) (length ring) (omega arith)),
        mod-add-mod (p + 1) (length ring) k,
      )
      (ap (λ t. at ring (t % length ring)) (omega arith))

keep_all :
    (s : DistributedBlockStore) (xs : List ℕ)
    → ((v : ℕ) → elem v xs ≡ true → is_available s v ≡ true)
    → keep (is_available s) xs ≡ xs
keep_all s [] h = refl
keep_all s (x ∷ xs) h = ground (arith, h x, keep_all s xs (λ v e. h v (ground arith)))

-- The walk has five steps, however few virtual nodes the ring holds. So in a well-formed store with
-- one to four virtual nodes, whose owners are not overloaded, the lookup returns five entries, and
-- after one round the same virtual node comes again.
pub get_dbs_nodes_for_block-repeats :
    (block_id : ℕ) (s : DistributedBlockStore)
    → Inv s
    → 0 < length s.ring
    → length s.ring < 5
    → ((v : ℕ) → elem v s.ring ≡ true → is_available s v ≡ true)
    → (nodes : List ℕ) × (get_dbs_nodes_for_block s block_id ≡ ok nodes)
      × (length nodes ≡ 5)
      × (at nodes (length s.ring) ≡ at nodes 0)
get_dbs_nodes_for_block-repeats block_id s i h few free =
    let p = start block_id s.ring in
    let inside : p < length s.ring = next_place (rank block_id s.ring) _ h in
    (
      around 5 p s.ring,
      selected block_id s h i
          ∙ ap ok
              (keep_all s (around 5 p s.ring) (λ v e. free v (around-elem 5 p v s.ring inside e))),
      length-around 5 p s.ring,
      at-around 5 p (length s.ring) s.ring few inside
          ∙ rw (add-mod_right p (length s.ring), mod-eq_of_lt inside),
    )

-- After a node is removed from a well-formed store, no virtual node that a lookup returns was its.
pub removed-not_returned :
    (id block_id v : ℕ) (s : DistributedBlockStore) (nodes : List ℕ)
    → Inv s
    → get_dbs_nodes_for_block (remove_dbs_node id s) block_id ≡ ok nodes
    → elem v nodes ≡ true
    → owner s v ≢ some id
removed-not_returned id block_id v s nodes i e h own =
    let t = remove_dbs_node id s in
    let (_, (real, found, _)) =
      get_dbs_nodes_for_block_sound block_id v t nodes (run-Inv (removes id ∷ []) s i) e h in
    ground (arith, owner-remove_dbs_node id v 0 s i)
