-- ===== src/BlockStore.antt =====
-- src/DistributedBlockStore.hpp and .cpp: the ring of virtual nodes.
mod Ring
pub mod Invariant
pub mod Owners
pub mod Lookup
pub mod Refinement
pub mod Abstract
pub mod Selection
pub mod Stability
mod Tests
mod Samples
use kapua.Prelude.{ℕ, zero, suc, Bool, false, List, [], ◌∷◌, none, some, leb, ◌==◌, if◌then◌else◌}
use kapua.Prelude.Maps
use kapua.Prelude.Maps.{Map}
use Ring.{set_insert, set_erase, lower_bound, wrap}
use kapua.Prelude.Results.{Result, ok, throws, out_of_range, ◌>>=◌}

pub record DistributedBlockStore : Type 0 where
  pub node_id : ℕ
  pub ring : List ℕ
  pub virtual_to_real : Map ℕ
  pub node_capacities : Map (ℕ × ℕ)

-- The loop of the constructor and of `add_dbs_node`.
pub add_virtual_ids : ℕ → List ℕ → DistributedBlockStore → DistributedBlockStore
add_virtual_ids id [] s = s
add_virtual_ids id (vid ∷ vids) s = add_virtual_ids id vids (record s {
  ring = set_insert vid s.ring;
  virtual_to_real = Maps.assign vid id s.virtual_to_real;
})

pub add_dbs_node : ℕ → List ℕ → ℕ → DistributedBlockStore → DistributedBlockStore
add_dbs_node id virtual_ids capacity s =
    let t = add_virtual_ids id virtual_ids s in
    record t { node_capacities = Maps.assign id (capacity, 0) t.node_capacities }

pub new : ℕ → List ℕ → ℕ → DistributedBlockStore
unfolding add_dbs_node
new id virtual_ids capacity =
    add_dbs_node id virtual_ids capacity
      (record { node_id = id; ring = []; virtual_to_real = []; node_capacities = [] })

-- The loop of `remove_dbs_node` over `virtual_to_real`: the entries that stay, and the ring.
pub remove_loop : ℕ → Map ℕ → List ℕ → Map ℕ × List ℕ
remove_loop id [] ring = ([], ring)
remove_loop id ((vid, real) ∷ m) ring =
    let (m', ring') = remove_loop id m (if real == id then set_erase vid ring else ring) in
    if real == id then (m', ring') else ((vid, real) ∷ m', ring')

pub remove_dbs_node : ℕ → DistributedBlockStore → DistributedBlockStore
remove_dbs_node id s =
    let (m, ring) = remove_loop id s.virtual_to_real s.ring in
    record s { ring = ring; virtual_to_real = m; node_capacities = Maps.erase id s.node_capacities }

pub update_dbs_node_capacity : ℕ → ℕ → DistributedBlockStore → DistributedBlockStore
update_dbs_node_capacity id new_capacity s = elim (Maps.find id s.node_capacities) [
  | none ↦ s
  | some (capacity, used) ↦ record s {
    node_capacities = Maps.assign id (new_capacity, used) s.node_capacities;
  }
]

pub check_node_overloaded : DistributedBlockStore → ℕ → Bool
check_node_overloaded s id = elim (Maps.find id s.node_capacities) [
  | none ↦ false
  | some (capacity, used) ↦ leb capacity used
]

-- `virtual_to_real.at(vid)`.
pub real_of : DistributedBlockStore → ℕ → Result ℕ
real_of s vid = elim (Maps.find vid s.virtual_to_real) [
  | none ↦ throws out_of_range
  | some real ↦ ok real
]

-- The loop of `get_dbs_nodes_for_block` with `n` rounds left, the iterator `it`, and the nodes
-- pushed so far put in front of the result.
pub collect : ℕ → DistributedBlockStore → List ℕ → Result (List ℕ)
unfolding real_of
collect zero s it = ok []
collect (suc n) s [] = ok []
collect (suc n) s (x ∷ it) = do
  let rest = collect n s (wrap s.ring it)
  real ← real_of s x
  nodes ← rest
  ok (if check_node_overloaded s real then nodes else x ∷ nodes)

pub get_dbs_nodes_for_block : DistributedBlockStore → ℕ → Result (List ℕ)
unfolding collect
get_dbs_nodes_for_block s block_id = elim s.ring [
  | [] ↦ ok []
  | x ∷ xs ↦ collect 5 s (wrap s.ring (lower_bound block_id s.ring))
]
