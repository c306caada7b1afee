-- ===== src/BlockStore/Samples.antt =====
-- Nodes that join and leave a block store, at concrete stores.
use mathlib.Core.Quot
use kapua.Prelude.{ℕ, ◌≡◌, ◌≢◌, refl, true, some, [], ◌∷◌, elem, arith}
use kapua.Prelude.Maps.{find, assign}
use kapua.BlockStore.Ring.{set_insert, lower_bound, wrap}
use kapua.BlockStore.Invariant.{Inv, new-Inv, adds, removes, run, run-Inv}
use kapua.BlockStore.Owners.{owner}
use kapua.BlockStore.Abstract.{Commute, perform_comm}
use kapua.BlockStore.Stability.{walked, get_dbs_nodes_for_block-remove_dbs_node}
use kapua.BlockStore.{
  DistributedBlockStore, new, add_virtual_ids, add_dbs_node, remove_dbs_node,
  get_dbs_nodes_for_block,
}

perform_comm_example :
    Commute
      (adds 2 (20 ∷ 40 ∷ []) 5)
      (adds 3 (60 ∷ []) 5)
      35
      (Quot.mk (new 1 (30 ∷ []) 5, new-Inv 1 (30 ∷ []) 5))
    × Commute
        (adds 2 (20 ∷ 40 ∷ []) 5)
        (removes 3)
        35
        (Quot.mk (new 1 (30 ∷ []) 5, new-Inv 1 (30 ∷ []) 5))
    × Commute (removes 2) (removes 3) 35 (Quot.mk (new 1 (30 ∷ []) 5, new-Inv 1 (30 ∷ []) 5))
perform_comm_example =
    perform_comm 2 3 5 5 35 (20 ∷ 40 ∷ []) (60 ∷ [])
      (Quot.mk (new 1 (30 ∷ []) 5, new-Inv 1 (30 ∷ []) 5)) (omega arith) λ v e. ground (arith, e)

-- Node 2 has the virtual node 90, which the walk for block 5 does not come to.
abbrev six : DistributedBlockStore
six = run (adds 2 (90 ∷ []) 5 ∷ []) (new 1 (10 ∷ 20 ∷ 30 ∷ 40 ∷ 50 ∷ []) 5)

six-Inv : Inv six
six-Inv = run-Inv (adds 2 (90 ∷ []) 5 ∷ []) _ (new-Inv 1 (10 ∷ 20 ∷ 30 ∷ 40 ∷ 50 ∷ []) 5)

six_walk : walked 5 six.ring (wrap six.ring (lower_bound 5 six.ring)) ≡ 10 ∷ 20 ∷ 30 ∷ 40 ∷ 50 ∷ []
unfolding new add_dbs_node add_virtual_ids set_insert lower_bound wrap
six_walk = refl

of_node_1 : (v : ℕ) → elem v (10 ∷ 20 ∷ 30 ∷ 40 ∷ 50 ∷ []) ≡ true → owner six v ≢ some 2
unfolding new add_dbs_node add_virtual_ids assign find
of_node_1 v e = ground (arith, e)

get_dbs_nodes_for_block-remove_dbs_node_example :
    get_dbs_nodes_for_block (remove_dbs_node 2 six) 5 ≡ get_dbs_nodes_for_block six 5
get_dbs_nodes_for_block-remove_dbs_node_example =
    get_dbs_nodes_for_block-remove_dbs_node 2 5 six six-Inv λ v e. of_node_1 v (rw six_walk at e)
