-- ===== src/Core/Known.antt =====
-- src/Core.cpp: `add_node` at an identity that is known already.
use kapua.Prelude.{ℕ, ◌<◌, ◌≡◌, ◌≢◌, ◌∙◌, false, [], ◌∷◌, some, arith}
use kapua.Prelude.Maps.{Distinct, Map, find, insert, erase, find-erase}
use kapua.Prelude.Results.{ok}
use kapua.Address.{SockaddrHashable}
use kapua.Node.{Node, new_node_at}
use kapua.Core.{Core, add_node, find_node, delete_all}
use kapua.Core.Registry.{Inv, added, add_node_lem, new_there, find_node-add_node}

-- Every pointer in a map is below `b`.
abbrev Below : ℕ → Map ℕ → Type 0
Below b [] = Unit {0}
Below b ((k, p) ∷ m) = (p < b) × Below b m

Below-find : (b : ℕ) (m : Map ℕ) → Distinct m → ((k p : ℕ) → find k m ≡ some p → p < b) → Below b m
unfolding find
Below-find b [] d h = tt
Below-find b ((j, q) ∷ m) d h =
    (h j q (ground arith), Below-find b m d.1 (λ k p e. h k p (ground (arith, d.0))))

insert-known : (k p q : ℕ) (m : Map ℕ) → find k m ≡ some p → insert k q m ≡ m
unfolding insert find
insert-known k p q [] e = cc
insert-known k p q ((j, w) ∷ m) e = ground (arith, insert-known k p q m)

delete_all-keeps :
    (p : ℕ) (n : Node) (nodes : Map ℕ) (heap : Map Node)
    → Below p nodes
    → find p heap ≡ some n
    → find p (delete_all nodes heap) ≡ some n
unfolding delete_all
delete_all-keeps p n [] heap h e = e
delete_all-keeps p n ((j, q) ∷ nodes) heap h e =
    delete_all-keeps p n nodes (erase q heap) h.1 (ground (arith, find-erase q p heap, h.0))

-- When the identity is known already, say of a peer that comes back from another address, the map by
-- identity keeps the old node and does not get the new one: lookups by identity still give the old
-- node, and the destructor, which frees the nodes of that map, leaves the new node allocated.
pub add_node_known :
    (raw : Node) (id q : ℕ) (addr : SockaddrHashable) (c : Core)
    → Inv c
    → c.nodes_locked ≡ false
    → find id c.nodes ≡ some q
    → let d = added raw id addr c in
      (add_node raw id addr c ≡ ok (c.next_pointer, d))
      × (find_node id d ≡ ok (some q, d))
      × (q ≢ c.next_pointer)
      × (find c.next_pointer (delete_all d.nodes d.heap) ≡ some (new_node_at raw id addr))
add_node_known raw id q addr c i free known =
    let below = λ (k : ℕ) (p : ℕ) (e : find k c.nodes ≡ some p).
      let (n, live, _) = i.by_id k p e in i.fresh p n live in
    (
      add_node_lem raw id addr c free,
      (find_node-add_node raw id id addr addr c free).1 ∙ ground arith,
      omega (arith, below id q known),
      rw (insert-known id q c.next_pointer c.nodes known) (
          delete_all-keeps c.next_pointer (new_node_at raw id addr) c.nodes
            (added raw id addr c).heap (Below-find c.next_pointer c.nodes i.distinct below)
            (new_there raw id addr c i)),
    )
