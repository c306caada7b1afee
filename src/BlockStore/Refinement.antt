-- ===== src/BlockStore/Refinement.antt =====
-- src/DistributedBlockStore.hpp and .cpp: what the store promises, without its ring and its maps, and
-- how the operations implement it.
use mathlib.Core.Path.{fun_ext}
use kapua.Prelude.{
  ℕ, ◌≡◌, refl, sym, ap, ap₂, ◌∙◌, List, [], ◌∷◌, Option, none, some, ◌==◌, if◌then◌else◌, elem,
  Bool, false,
}
use kapua.BlockStore.Ring.{Ascending-elem}
use kapua.BlockStore.Invariant.{
  Inv, Operation, adds, removes, updates, apply, apply-Inv, run, run-Inv, without_owner, is_some,
}
use kapua.BlockStore.Owners.{
  owner, capacity_of, owner-add_dbs_node, owner-remove_dbs_node,
  capacity_of-update_dbs_node_capacity, with_capacity,
}
use kapua.BlockStore.Lookup.{is_free, is_available, get_dbs_nodes_for_block-around}
use kapua.BlockStore.{DistributedBlockStore, get_dbs_nodes_for_block}

-- Who owns each virtual node, and what each real node has and uses.
pub record Spec : Type 0 where
  pub owners : ℕ → Option ℕ
  pub capacities : ℕ → Option (ℕ × ℕ)

abbrev pub spec_apply : Operation → Spec → Spec
spec_apply (adds id vids capacity) a = record {
  owners = λ v. if elem v vids then some id else a.owners v;
  capacities = λ n. if id == n then some (capacity, 0) else a.capacities n;
}
spec_apply (removes id) a = record {
  owners = λ v. without_owner id (a.owners v);
  capacities = λ n. if id == n then none else a.capacities n;
}
spec_apply (updates id capacity) a = record {
  owners = a.owners;
  capacities = λ n. if id == n then with_capacity capacity (a.capacities n) else a.capacities n;
}

abbrev pub spec_run : List Operation → Spec → Spec
spec_run [] a = a
spec_run (o ∷ os) a = spec_run os (spec_apply o a)

abbrev pub view : DistributedBlockStore → Spec
view s = record { owners = owner s; capacities = capacity_of s }

pub Spec-ext :
    (a b : Spec)
    → ((v : ℕ) → a.owners v ≡ b.owners v)
    → ((n : ℕ) → a.capacities n ≡ b.capacities n)
    → a ≡ b
Spec-ext a b h k = ap₂ (λ f g. record { owners = f; capacities = g }) (fun_ext h) (fun_ext k)

pub view-apply :
    (o : Operation) (s : DistributedBlockStore) → Inv s → view (apply o s) ≡ spec_apply o (view s)
view-apply (adds id vids capacity) s i =
    Spec-ext _ _ (λ v. (owner-add_dbs_node id v 0 vids capacity s).0)
      (λ n. (owner-add_dbs_node id 0 n vids capacity s).2)
view-apply (removes id) s i =
    Spec-ext _ _ (λ v. (owner-remove_dbs_node id v 0 s i).0)
      (λ n. (owner-remove_dbs_node id 0 n s i).2)
view-apply (updates id capacity) s i =
    Spec-ext _ _ (λ v. rw ((capacity_of-update_dbs_node_capacity id 0 capacity s).2))
      (λ n. (capacity_of-update_dbs_node_capacity id n capacity s).0)

-- The operations of a well-formed store do what the specification says, over every sequence of them:
-- the owner of every virtual node and the capacity of every node, seen after additions, removals and
-- updates, are those that the specification computes from the owners and capacities before, with
-- neither a ring nor an order of entries.
pub view-run :
    (os : List Operation) (s : DistributedBlockStore)
    → Inv s
    → view (run os s) ≡ spec_run os (view s)
view-run [] s i = refl
view-run (o ∷ os) s i =
    view-run os (apply o s) (apply-Inv o s i) ∙ ap (spec_run os) (view-apply o s i)

same_ring : (s t : DistributedBlockStore) → Inv s → Inv t → view s ≡ view t → s.ring ≡ t.ring
same_ring s t i j e =
    Ascending-elem s.ring t.ring i.ascending j.ascending
      λ w. i.domain w ∙ ap (λ a. is_some (a.owners w)) e ∙ sym (j.domain w)

spec_available : Spec → ℕ → Bool
spec_available a v = elim (a.owners v) [ none ↦ false | some real ↦ is_free (a.capacities real) ]

pub same_lookup :
    (block_id : ℕ) (s t : DistributedBlockStore)
    → Inv s
    → Inv t
    → view s ≡ view t
    → get_dbs_nodes_for_block s block_id ≡ get_dbs_nodes_for_block t block_id
unfolding spec_available
same_lookup block_id s t i j e =
    let available : is_available s ≡ is_available t = ap spec_available e in
    rw (
      get_dbs_nodes_for_block-around block_id s i,
      get_dbs_nodes_for_block-around block_id t j,
      same_ring s t i j e,
      available,
    )

-- Two well-formed stores with the same owners and the same capacities cannot be told apart: whatever
-- additions, removals and updates are applied to both, the lookup of every block then gives the same
-- result, however the two rings and the entries of the two pairs of maps came about.
pub get_dbs_nodes_for_block-view :
    (os : List Operation) (block_id : ℕ) (s t : DistributedBlockStore)
    → Inv s
    → Inv t
    → view s ≡ view t
    → get_dbs_nodes_for_block (run os s) block_id ≡ get_dbs_nodes_for_block (run os t) block_id
get_dbs_nodes_for_block-view os block_id s t i j e =
    same_lookup block_id (run os s) (run os t) (run-Inv os s i) (run-Inv os t j)
      (view-run os s i ∙ ap (spec_run os) e ∙ sym (view-run os t j))
