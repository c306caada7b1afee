-- ===== src/BlockStore/Tests.antt =====
-- Runs of the block store, and its theorems at concrete stores.
use kapua.Prelude.{
  ℕ, ◌≡◌, refl, true, some, List, [], ◌∷◌, if◌then◌else◌, elem, length, keep, arith, ◌≢◌, ◌==◌, ◌∙◌,
  sym,
}
use kapua.Prelude.Maps.{find, assign, erase}
use kapua.Prelude.Results.{ok}
use kapua.BlockStore.Ring.{set_insert, set_erase, lower_bound, wrap, at}
use kapua.BlockStore.Invariant.{
  Inv, new-Inv, Operation, adds, removes, updates, run, run-Inv, without_owner,
}
use kapua.BlockStore.Owners.{
  owner, capacity_of, owner-add_dbs_node, owner-remove_dbs_node,
  capacity_of-update_dbs_node_capacity, with_capacity,
}
use kapua.BlockStore.Lookup.{around, start, is_available, get_dbs_nodes_for_block-around}
use kapua.BlockStore.Refinement.{Spec-ext, view, spec_run, view-run, get_dbs_nodes_for_block-view}
use kapua.BlockStore.Selection.{
  get_dbs_nodes_for_block_sound, get_dbs_nodes_for_block-repeats, removed-not_returned,
}
use kapua.BlockStore.{
  DistributedBlockStore, new, add_virtual_ids, add_dbs_node, remove_loop, remove_dbs_node,
  update_dbs_node_capacity, check_node_overloaded, collect, get_dbs_nodes_for_block,
}

-- Node 1 with the virtual nodes 10, 30 and 50, and node 2 with 20 and 40, which is full.
abbrev first : DistributedBlockStore
first = new 1 (30 ∷ 10 ∷ 50 ∷ []) 100

abbrev history : List Operation
history = adds 2 (20 ∷ 40 ∷ []) 0 ∷ updates 1 7 ∷ []

abbrev both : DistributedBlockStore
both = run history first

both_ring : both.ring ≡ 10 ∷ 20 ∷ 30 ∷ 40 ∷ 50 ∷ []
unfolding new add_dbs_node add_virtual_ids update_dbs_node_capacity set_insert assign find
both_ring = refl

skips_full : get_dbs_nodes_for_block both 35 ≡ ok (50 ∷ 10 ∷ 30 ∷ [])
unfolding new add_dbs_node add_virtual_ids update_dbs_node_capacity set_insert assign find
    get_dbs_nodes_for_block collect lower_bound wrap check_node_overloaded
skips_full = refl

both-Inv : Inv both
both-Inv = run-Inv history first (new-Inv 1 (30 ∷ 10 ∷ 50 ∷ []) 100)

run-Inv_example : Inv (run (removes 1 ∷ []) both)
run-Inv_example = run-Inv (removes 1 ∷ []) both both-Inv

owner-add_dbs_node_run : owner (add_dbs_node 3 (20 ∷ []) 5 both) 20 ≡ some 3
owner-add_dbs_node_run = (owner-add_dbs_node 3 20 3 (20 ∷ []) 5 both).0

owner-remove_dbs_node_run : owner (remove_dbs_node 1 both) 30 ≡ without_owner 1 (owner both 30)
owner-remove_dbs_node_run = (owner-remove_dbs_node 1 30 1 both both-Inv).0

capacity_of-update_dbs_node_capacity_run :
    capacity_of (update_dbs_node_capacity 2 9 both) 2 ≡ with_capacity 9 (capacity_of both 2)
capacity_of-update_dbs_node_capacity_run = (capacity_of-update_dbs_node_capacity 2 2 9 both).0

get_dbs_nodes_for_block-around_example :
    get_dbs_nodes_for_block both 35
    ≡ ok (
        if length both.ring == 0
        then []
        else keep (is_available both) (around 5 (start 35 both.ring) both.ring))
get_dbs_nodes_for_block-around_example = get_dbs_nodes_for_block-around 35 both both-Inv

get_dbs_nodes_for_block_sound_run : elem 10 both.ring ≡ true
get_dbs_nodes_for_block_sound_run =
    (get_dbs_nodes_for_block_sound 35 10 both (50 ∷ 10 ∷ 30 ∷ []) both-Inv skips_full refl).0

-- Both nodes have room.
abbrev both_free : DistributedBlockStore
both_free = run (adds 2 (20 ∷ 40 ∷ []) 3 ∷ []) first

both_free-Inv : Inv both_free
both_free-Inv = run-Inv (adds 2 (20 ∷ 40 ∷ []) 3 ∷ []) first (new-Inv 1 (30 ∷ 10 ∷ 50 ∷ []) 100)

removed-not_returned_run : owner both_free 40 ≢ some 1
unfolding new add_dbs_node add_virtual_ids update_dbs_node_capacity set_insert assign find
    remove_dbs_node remove_loop set_erase erase get_dbs_nodes_for_block collect lower_bound wrap
    check_node_overloaded
removed-not_returned_run =
    removed-not_returned 1 35 40 both_free (40 ∷ 20 ∷ 40 ∷ 20 ∷ 40 ∷ []) both_free-Inv refl refl

-- One virtual node and one owner with room.
abbrev solo : DistributedBlockStore
solo = new 1 (30 ∷ []) 100

solo-free : (v : ℕ) → elem v solo.ring ≡ true → is_available solo v ≡ true
unfolding new add_dbs_node add_virtual_ids set_insert assign find
solo-free v h = ground arith

get_dbs_nodes_for_block-repeats_run :
    (nodes : List ℕ) × (get_dbs_nodes_for_block solo 7 ≡ ok nodes)
    × (length nodes ≡ 5)
    × (at nodes (length solo.ring) ≡ at nodes 0)
unfolding new add_dbs_node add_virtual_ids set_insert assign find
get_dbs_nodes_for_block-repeats_run =
    get_dbs_nodes_for_block-repeats 7 solo (new-Inv 1 (30 ∷ []) 100) (omega arith) (omega arith)
      solo-free

view-run_example : view both ≡ spec_run history (view first)
view-run_example = view-run history first (new-Inv 1 (30 ∷ 10 ∷ 50 ∷ []) 100)

-- The same store by another way.
abbrev detour : List Operation
detour = updates 1 7 ∷ adds 3 (40 ∷ []) 2 ∷ removes 3 ∷ adds 2 (40 ∷ 20 ∷ []) 0 ∷ []

same_view : view both ≡ view (run detour first)
unfolding new add_dbs_node add_virtual_ids assign find
same_view =
    let i = new-Inv 1 (30 ∷ 10 ∷ 50 ∷ []) 100 in
    view-run history first i
    ∙ Spec-ext _ _ (λ v. ground arith) (λ n. ground arith)
    ∙ sym (view-run detour first i)

get_dbs_nodes_for_block-view_run :
    get_dbs_nodes_for_block (run (removes 2 ∷ []) both) 35
    ≡ get_dbs_nodes_for_block (run (removes 2 ∷ []) (run detour first)) 35
get_dbs_nodes_for_block-view_run =
    get_dbs_nodes_for_block-view (removes 2 ∷ []) 35 both (run detour first) both-Inv
      (run-Inv detour first (new-Inv 1 (30 ∷ 10 ∷ 50 ∷ []) 100)) same_view
