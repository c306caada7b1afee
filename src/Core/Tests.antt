-- ===== src/Core/Tests.antt =====
-- src/Core.cpp: a registry, and the theorems on it there.
use kapua.Prelude.{ℕ, ◌⊎◌, ◌≡◌, refl, if◌then◌else◌, ◌==◌, false, [], replicate, none, some, arith}
use kapua.Prelude.Maps.{find, insert}
use kapua.Prelude.Results.{ok, undefined, relock}
use kapua.Address.{find_addr}
use kapua.Address.Tests.{local_host, elsewhere}
use kapua.Node.{Node, initialised, new_node_at}
use kapua.Core.{
  Core, add_node, remove_node, find_node, queue_action, main_loop_round, drain_actions, stop,
  get_version,
}
use kapua.Protocol.{kapua_version}
use kapua.Core.Known.{add_node_known}
use kapua.Core.Threads.{
  Machine, looping, returned, joining, free, Run, here, leaves, Leaving, ends, unstarted, late_loop,
  stop_before_loop, stop_returns,
}
use kapua.Core.Registry.{
  Inv, added, added-Inv, add_node-Inv, find_node-add_node, remove_node-relock,
}

-- What memory might hold for a node.
abbrev pub raw : Node
raw = record {
  addr = local_host;
  id = 0;
  state = initialised;
  keys = record { public_key = none; private_key = none };
  aes_context_tx = replicate 32 0;
  aes_context_rx = replicate 32 0;
  last_contact_time = 0;
}

-- A registry without nodes, of the node 7 with the private key 12 of the public key 11.
abbrev pub empty : Core
empty = record {
  my_id = 7;
  keys = record { public_key = some 11; private_key = some 12 };
  nodes = [];
  nodes_by_addr = [];
  nodes_locked = false;
  heap = [];
  next_pointer = 1;
  actions = [];
  is_running = false;
}

pub empty-Inv : Inv empty
unfolding find find_addr
empty-Inv = record {
  distinct = tt;
  by_id = λ id p e. absurd (ground arith);
  by_addr = λ a p e. absurd (ground arith);
  fresh = λ p n e. absurd (ground arith);
}

-- The node 9 is known, at 127.0.0.1.
abbrev pub one : Core
one = added raw 9 local_host empty

actions_taken :
    main_loop_round
      (queue_action (record { type_id = 1 }) (queue_action (record { type_id = 2 }) one))
    ≡ (2, one)
unfolding main_loop_round drain_actions queue_action
actions_taken = refl

add_node-Inv_example :
    (p : ℕ) × (d : Core) × (add_node raw 9 local_host empty ≡ ok (p, d))
    × Inv d
    × (d.nodes_locked ≡ false)
    × (find p empty.heap ≡ none)
    × (find 1 d.heap ≡ (if p == 1 then some (new_node_at raw 9 local_host) else find 1 empty.heap))
add_node-Inv_example = add_node-Inv raw 9 1 local_host empty empty-Inv refl

find_node-add_node_example : add_node raw 9 local_host empty ≡ ok (1, one)
find_node-add_node_example = (find_node-add_node raw 9 9 local_host local_host empty refl).0

pub one-Inv : Inv one
one-Inv = added-Inv raw 9 local_host empty empty-Inv

add_node_known_run :
    find_node 9 (added raw 9 elsewhere one) ≡ ok (some 1, added raw 9 elsewhere one)
unfolding find insert
add_node_known_run = (add_node_known raw 9 1 elsewhere one one-Inv refl refl).1

remove_node-relock_run : remove_node 9 one ≡ undefined relock
remove_node-relock_run = remove_node-relock 9 one

stop_before_loop_example : Run (unstarted one) (late_loop 5 one)
stop_before_loop_example = (stop_before_loop 5 one (late_loop 5 one) here).0

stop_returns_example :
    Leaving (record { core = stop one; worker = looping; owner = joining })
    × (Leaving (record { core = one; worker = returned; owner = joining }) ⊎ (joining ≡ free))
    × (k : Machine) × Run (record { core = one; worker = looping; owner = joining }) k
    × (k.owner ≡ free)
stop_returns_example =
    stop_returns one (record { core = one; worker = looping; owner = joining })
      (record { core = one; worker = returned; owner = joining }) (ends refl) (leaves refl)

-- The constants of Core.hpp are those that a packet is made with.
get_version_lem :
    (get_version.major ≡ kapua_version.major)
    × (get_version.minor ≡ kapua_version.minor)
    × (get_version.patch ≡ kapua_version.patch)
get_version_lem = (refl, refl, refl)
