-- ===== src/Core.antt =====
-- src/Core.hpp and src/Core.cpp: the registry of nodes and the queue of actions. A `Node*` is a number
-- under which the heap holds the node.
pub mod Registry
pub mod Known
pub mod Threads
pub mod Tests
use kapua.Prelude.{
  ℕ, zero, suc, Bool, true, false, not, List, [], ◌∷◌, ◌++◌, Option, none, some, if◌then◌else◌,
}
use kapua.Prelude.Maps
use kapua.Prelude.Maps.{Map}
use kapua.Prelude.Results.{Result, ok, undefined, relock, null_pointer, ◌>>=◌}
use kapua.Address.{SockaddrHashable, AddressMap, find_addr, insert_addr, erase_addr}
use kapua.Node.{Node, KeyPair, new_node_at}

-- `Version_t`, and `get_version` with the constants of Core.hpp.
pub record Version : Type 0 where
  pub major : ℕ
  pub minor : ℕ
  pub patch : ℕ

abbrev pub get_version : Version
get_version = record { major = 0; minor = 0; patch = 1 }

-- `ActionType` has no values of its own.
pub record Action : Type 0 where
  pub type_id : ℕ

pub record Core : Type 0 where
  pub my_id : ℕ
  pub keys : KeyPair
  pub nodes : Map ℕ
  pub nodes_by_addr : AddressMap
  pub nodes_locked : Bool
  pub heap : Map Node
  pub next_pointer : ℕ
  pub actions : List Action
  pub is_running : Bool

-- `std::lock_guard<std::mutex> lock(_nodes_mutex)` over the rest of a method. A thread that locks the
-- mutex again while it holds it never gets on.
unfoldable pub with_lock {ℓ} : {A : Type ℓ} → (Core → Result (A × Core)) → Core → Result (A × Core)
with_lock body c = if c.nodes_locked then undefined relock else do
  (a, c') ← body (record c { nodes_locked = true })
  ok (a, record c' { nodes_locked = false })

unfoldable pub add_node : Node → ℕ → SockaddrHashable → Core → Result (ℕ × Core)
unfolding with_lock
add_node raw id addr = with_lock λ c.
    let node = c.next_pointer in
    ok (
      node,
      record c {
        heap = Maps.assign node (new_node_at raw id addr) c.heap;
        next_pointer = suc node;
        nodes = Maps.insert id node c.nodes;
        nodes_by_addr = insert_addr addr node c.nodes_by_addr;
      },
    )

unfoldable pub find_node : ℕ → Core → Result (Option ℕ × Core)
unfolding with_lock
find_node id = with_lock λ c. ok (Maps.find id c.nodes, c)

unfoldable pub find_node_at : SockaddrHashable → Core → Result (Option ℕ × Core)
unfolding with_lock
find_node_at addr = with_lock λ c. ok (find_addr addr c.nodes_by_addr, c)

-- Reading through a `Node*`.
unfoldable pub deref : ℕ → Core → Result Node
deref p c = elim (Maps.find p c.heap) [ none ↦ undefined null_pointer | some n ↦ ok n ]

unfoldable pub remove_found : ℕ → Option ℕ → Core → Result (Unit {0} × Core)
unfolding deref
remove_found id none c = ok (tt, c)
remove_found id (some p) c = do
  node ← deref p c
  ok (
    tt,
    record c {
      nodes_by_addr = erase_addr node.addr c.nodes_by_addr;
      nodes = Maps.erase id c.nodes;
      heap = Maps.erase p c.heap;
    },
  )

unfoldable pub remove_node : ℕ → Core → Result (Unit {0} × Core)
unfolding with_lock find_node remove_found
remove_node id = with_lock λ c. do (node, c') ← find_node id c; remove_found id node c'

unfoldable pub queue_action : Action → Core → Core
queue_action action c = record c { actions = c.actions ++ action ∷ [] }

-- `start` draws the identity at random and starts `_main_loop` in a thread.
unfoldable pub start : ℕ → Core → Core
start random_id c = record c { my_id = random_id }

unfoldable pub stop : Core → Core
stop c = record c { is_running = false }

-- `_main_loop` up to its loop: it takes up the work unless a loop runs already.
unfoldable pub enter_main_loop : Core → Bool × Core
enter_main_loop c = if c.is_running then (false, c) else (true, record c { is_running = true })

-- The inner loop of `_main_loop`, over the queue: the number of actions taken, each of which is
-- logged as unknown.
unfoldable pub drain_actions : List Action → ℕ
drain_actions [] = 0
drain_actions (a ∷ as_) = suc (drain_actions as_)

unfoldable pub main_loop_round : Core → ℕ × Core
unfolding drain_actions
main_loop_round c = (drain_actions c.actions, record c { actions = [] })

-- `~Core` deletes the nodes of the first map.
unfoldable pub delete_all : Map ℕ → Map Node → Map Node
delete_all [] heap = heap
delete_all ((id, p) ∷ nodes) heap = delete_all nodes (Maps.erase p heap)
