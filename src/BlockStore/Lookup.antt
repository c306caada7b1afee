-- ===== src/BlockStore/Lookup.antt =====
-- src/DistributedBlockStore.cpp: which virtual nodes `get_dbs_nodes_for_block` returns.
use native.Mathlib.Numerals.{add-one}
use kapua.Prelude.{
  ℕ, zero, suc, ◌+◌, ◌%◌, ◌<◌, ◌≡◌, refl, ap, Bool, true, false, not, inl, inr, List, [], ◌∷◌,
  Option, none, some, ltb, if◌then◌else◌, elem, keep, length, drop, arith, Option-cases, ◌==◌,
}
use kapua.Prelude.Results.{ok}
use kapua.BlockStore.Ring.{
  at, rank, wrap, wrap-drop, drop-at, lower_bound, lower_bound-drop, rank-le-length,
}
use kapua.BlockStore.Invariant.{Inv}
use kapua.BlockStore.Owners.{owner, capacity_of}
use kapua.BlockStore.{
  DistributedBlockStore, check_node_overloaded, collect, get_dbs_nodes_for_block,
}

-- `n` elements from place `p` on, round and round.
abbrev pub around : ℕ → ℕ → List ℕ → List ℕ
around zero p ring = []
around (suc n) p ring = at ring p ∷ around n ((p + 1) % length ring) ring

-- A virtual node that takes blocks: its owner's use is below its capacity, or not known.
abbrev pub is_free : Option (ℕ × ℕ) → Bool
is_free none = true
is_free (some (capacity, used)) = ltb used capacity

abbrev pub is_available : DistributedBlockStore → ℕ → Bool
is_available s v = elim (owner s v) [ none ↦ false | some real ↦ is_free (capacity_of s real) ]

-- The owner of an element of the ring is known.
owner_of_ring :
    (s : DistributedBlockStore) (v : ℕ)
    → Inv s
    → elem v s.ring ≡ true
    → (real : ℕ) × (owner s v ≡ some real)
owner_of_ring s v i h = elim (Option-cases (owner s v)) [
  | inl e ↦ ground (arith, i.domain v)
  | inr found ↦ found
]

overloaded_lem :
    (s : DistributedBlockStore) (id : ℕ)
    → check_node_overloaded s id ≡ not (is_free (capacity_of s id))
unfolding check_node_overloaded
overloaded_lem s id = ground arith

pub elem-at : (p : ℕ) (ring : List ℕ) → p < length ring → elem (at ring p) ring ≡ true
elem-at p [] h = absurd (omega arith)
elem-at zero (x ∷ xs) h = ground arith
elem-at (suc p) (x ∷ xs) h = ground (arith, elem-at p xs)

pub next_place : (p n : ℕ) → 0 < n → p % n < n
next_place p n h = omega arith

collect-around :
    (n p : ℕ) (s : DistributedBlockStore)
    → Inv s
    → p < length s.ring
    → collect n s (drop p s.ring) ≡ ok (keep (is_available s) (around n p s.ring))
unfolding collect
collect-around zero p s i h = refl
collect-around (suc n) p s i h =
    let (real, e) = owner_of_ring s (at s.ring p) i (elem-at p s.ring h) in
    rw
      (
        drop-at p s.ring h,
        wrap-drop (suc p) s.ring h (omega arith),
        ← add-one p,
        collect-around n ((p + 1) % length s.ring) s i
            (next_place (p + 1) (length s.ring) (omega arith)),
      )
      (ground (arith, overloaded_lem s real))

-- Where the walk for a block begins: the first virtual node that is not below it, or the first of all.
abbrev pub start : ℕ → List ℕ → ℕ
start block_id ring = rank block_id ring % length ring

walk :
    (block_id : ℕ) (s : DistributedBlockStore)
    → Inv s
    → 0 < length s.ring
    → collect 5 s (wrap s.ring (lower_bound block_id s.ring))
      ≡ ok (keep (is_available s) (around 5 (start block_id s.ring) s.ring))
walk block_id s i h =
    rw
      (
        lower_bound-drop block_id s.ring i.ascending,
        wrap-drop (rank block_id s.ring) s.ring (rank-le-length block_id s.ring) h,
      )
      (collect-around 5 (start block_id s.ring) s i (next_place (rank block_id s.ring) _ h))

-- In a well-formed store the lookup never throws. It walks five steps from the first virtual node
-- that is not below the block, going on at the lowest after the highest, and returns, in that order,
-- those steps whose owner is not overloaded (an empty ring gives none).
pub get_dbs_nodes_for_block-around :
    (block_id : ℕ) (s : DistributedBlockStore)
    → Inv s
    → get_dbs_nodes_for_block s block_id
      ≡ ok (
          if length s.ring == 0
          then []
          else keep (is_available s) (around 5 (start block_id s.ring) s.ring))
unfolding get_dbs_nodes_for_block
get_dbs_nodes_for_block-around block_id s i = cases s.ring refl
  where
    cases :
        (r : List ℕ)
        → s.ring ≡ r
        → get_dbs_nodes_for_block s block_id
          ≡ ok (
              if length s.ring == 0
              then []
              else keep (is_available s) (around 5 (start block_id s.ring) s.ring))
    cases [] e = rw (e, get_dbs_nodes_for_block)
    cases (x ∷ xs) e = ground (
      arith,
      e,
      walk block_id s i (let l : length s.ring ≡ length (x ∷ xs) = ap length e in omega arith),
    )
