-- ===== src/BlockStore/Stability.antt =====
-- src/DistributedBlockStore.cpp: consistent hashing: a node that leaves moves no block but its own.
use kapua.Prelude.{
  ℕ, zero, suc, ◌≡◌, ◌≢◌, refl, sym, ap, ◌∙◌, Bool, true, false, not, inl, inr, List, [], ◌∷◌, none,
  some, if◌then◌else◌, elem, keep, arith, Option-cases, Bool-cases, ◌≤◌,
}
use kapua.Prelude.Results.{Result, ok, throws, out_of_range, ◌>>=◌}
use kapua.BlockStore.Ring.{
  Ascending, Above, wrap, lower_bound, Ascending-elem, Above-Ascending, Above-mono,
}
use kapua.BlockStore.Invariant.{Inv, removes, run-Inv, owned_by}
use kapua.BlockStore.Owners.{owner, capacity_of, owner-remove_dbs_node}
use kapua.BlockStore.{
  DistributedBlockStore, check_node_overloaded, collect, real_of, remove_dbs_node,
  get_dbs_nodes_for_block,
}

-- The virtual nodes at which a walk of `n` steps looks, from an iterator on.
abbrev pub walked : ℕ → List ℕ → List ℕ → List ℕ
walked zero ring it = []
walked (suc n) ring [] = []
walked (suc n) ring (x ∷ it) = x ∷ walked n ring (wrap ring it)

keep-Above : (p : ℕ → Bool) (b : ℕ) (xs : List ℕ) → Above b xs → Above b (keep p xs)
keep-Above p b [] s = tt
keep-Above p b (x ∷ xs) s = elim (Bool-cases (p x)) [
  | inl e ↦ rw e (s.0, keep-Above p x xs s.1)
  | inr e ↦ rw e (Above-mono (keep p xs) (omega arith) (keep-Above p x xs s.1))
]

keep-Ascending : (p : ℕ → Bool) (xs : List ℕ) → Ascending xs → Ascending (keep p xs)
keep-Ascending p [] s = tt
keep-Ascending p (x ∷ xs) s = elim (Bool-cases (p x)) [
  | inl e ↦ rw e (keep-Above p x xs s)
  | inr e ↦ rw e (Above-Ascending x (keep p xs) (keep-Above p x xs s))
]

elem-keep :
    (p : ℕ → Bool) (v : ℕ) (xs : List ℕ) → elem v (keep p xs) ≡ (if p v then elem v xs else false)
elem-keep p v [] = ground arith
elem-keep p v (x ∷ xs) = ground (arith, elem-keep p v xs)

lower_bound_of_Above : (b x : ℕ) (xs : List ℕ) → b ≤ x → Above x xs → lower_bound b xs ≡ xs
unfolding lower_bound
lower_bound_of_Above b x [] h s = refl
lower_bound_of_Above b x (y ∷ ys) h s = ground (arith, lower_bound_of_Above b y ys)

lower_bound-keep :
    (p : ℕ → Bool) (b : ℕ) (xs : List ℕ)
    → Ascending xs
    → lower_bound b (keep p xs) ≡ keep p (lower_bound b xs)
unfolding lower_bound
lower_bound-keep p b [] s = refl
lower_bound-keep p b (x ∷ xs) s = ground (
  arith,
  lower_bound-keep p b xs (Above-Ascending x xs s),
  lower_bound_of_Above b x (keep p xs),
  keep-Above p x xs s,
)

-- Where the next element is one that stays, leaving out the others and going round commute.
wrap-keep :
    (p : ℕ → Bool) (n : ℕ) (ring it : List ℕ)
    → ((v : ℕ) → elem v (walked (suc n) ring (wrap ring it)) ≡ true → p v ≡ true)
    → wrap (keep p ring) (keep p it) ≡ keep p (wrap ring it)
unfolding wrap
wrap-keep p n ring [] stays = refl
wrap-keep p n ring (y ∷ it) stays = let kept : p y ≡ true = stays y (ground arith) in rw (kept) refl

-- A step of the walk, at a virtual node with an owner and at one without.
collect_step :
    (n x real : ℕ) (it : List ℕ) (s : DistributedBlockStore)
    → owner s x ≡ some real
    → collect (suc n) s (x ∷ it) ≡ (
        collect n s (wrap s.ring it) >>= λ nodes.
        ok (if check_node_overloaded s real then nodes else x ∷ nodes))
unfolding collect real_of
collect_step n x real it s e = rw (e, collect, real_of) refl

collect_lost :
    (n x : ℕ) (it : List ℕ) (s : DistributedBlockStore)
    → owner s x ≡ none
    → collect (suc n) s (x ∷ it) ≡ throws out_of_range
unfolding collect real_of
collect_lost n x it s e = rw (e, collect, real_of) refl

-- The virtual nodes that stay when a node leaves.
abbrev stays : ℕ → DistributedBlockStore → ℕ → Bool
stays id s v = not (owned_by id (owner s v))

module _ (id : ℕ) (s : DistributedBlockStore) (i : Inv s) where
  ring_left : (remove_dbs_node id s).ring ≡ keep (stays id s) s.ring
  ring_left =
      Ascending-elem _ _ (run-Inv (removes id ∷ []) s i).ascending
        (keep-Ascending (stays id s) s.ring i.ascending)
        λ v. ground (arith, owner-remove_dbs_node id v 0 s i, elem-keep (stays id s) v s.ring)

  owner_stays : (v : ℕ) → stays id s v ≡ true → owner (remove_dbs_node id s) v ≡ owner s v
  owner_stays v e = ground (arith, owner-remove_dbs_node id v 0 s i)

  overloaded_stays :
      (v real : ℕ)
      → stays id s v ≡ true
      → owner s v ≡ some real
      → check_node_overloaded (remove_dbs_node id s) real ≡ check_node_overloaded s real
  unfolding check_node_overloaded
  overloaded_stays v real e own =
      let same : capacity_of (remove_dbs_node id s) real ≡ capacity_of s real =
        ground (arith, owner-remove_dbs_node id 0 real s i) in
      rw (same, check_node_overloaded) refl

  around_left :
      (n : ℕ) (it : List ℕ)
      → ((v : ℕ) → elem v (walked n s.ring (wrap s.ring it)) ≡ true → stays id s v ≡ true)
      → collect n (remove_dbs_node id s) (keep (stays id s) (wrap s.ring it))
        ≡ collect n s (wrap s.ring it)
      → collect n (remove_dbs_node id s) (wrap (remove_dbs_node id s).ring (keep (stays id s) it))
        ≡ collect n s (wrap s.ring it)
  unfolding collect
  around_left zero it h ih = refl
  around_left (suc n) it h ih =
      let t = remove_dbs_node id s in
      ap (λ ring. collect (suc n) t (wrap ring (keep (stays id s) it))) ring_left
      ∙ ap (collect (suc n) t) (wrap-keep (stays id s) n s.ring it h)
      ∙ ih

  collect_left :
      (n : ℕ) (it : List ℕ)
      → ((v : ℕ) → elem v (walked n s.ring it) ≡ true → stays id s v ≡ true)
      → collect n (remove_dbs_node id s) (keep (stays id s) it) ≡ collect n s it
  unfolding collect
  collect_left zero it h = refl
  collect_left (suc n) [] h = refl
  collect_left (suc n) (x ∷ it) h =
      let t = remove_dbs_node id s in
      let kept : stays id s x ≡ true = h x (ground arith) in
      let later : (v : ℕ) → elem v (walked n s.ring (wrap s.ring it)) ≡ true → stays id s v ≡ true =
        λ v e. h v (ground (arith, e)) in
      let whole : keep (stays id s) (x ∷ it) ≡ x ∷ keep (stays id s) it = rw kept refl in
      let next : collect n t (wrap t.ring (keep (stays id s) it)) ≡ collect n s (wrap s.ring it) =
        around_left n it later (collect_left n (wrap s.ring it) later) in
      rw whole (elim (Option-cases (owner s x)) [
        | inl e ↦ collect_lost n x _ t (owner_stays x kept ∙ e) ∙ sym (collect_lost n x it s e)
        | inr (real, e) ↦
            collect_step n x real _ t (owner_stays x kept ∙ e)
            ∙ rw (next, overloaded_stays x real kept e) refl
            ∙ sym (collect_step n x real it s e)
      ])

-- The lookup, in an empty ring too.
lookup_walks :
    (block_id : ℕ) (s : DistributedBlockStore)
    → get_dbs_nodes_for_block s block_id ≡ collect 5 s (wrap s.ring (lower_bound block_id s.ring))
unfolding get_dbs_nodes_for_block collect wrap lower_bound
lookup_walks block_id s = cases s.ring refl
  where
    walk : Result (List ℕ)
    walk = collect 5 s (wrap s.ring (lower_bound block_id s.ring))

    cases : (r : List ℕ) → s.ring ≡ r → (elim r [ [] ↦ ok [] | x ∷ xs ↦ walk ]) ≡ walk
    cases [] e = ap (λ ring. collect 5 s (wrap ring (lower_bound block_id ring))) (sym e)
    cases (x ∷ xs) e = refl

-- When a node leaves a well-formed store, the lookup of a block gives what it gave before, unless one of
-- the five steps of its walk came to a virtual node of the one that left.
pub get_dbs_nodes_for_block-remove_dbs_node :
    (id block_id : ℕ) (s : DistributedBlockStore)
    → Inv s
    → ((v : ℕ)
        → elem v (walked 5 s.ring (wrap s.ring (lower_bound block_id s.ring))) ≡ true
        → owner s v ≢ some id)
    → get_dbs_nodes_for_block (remove_dbs_node id s) block_id ≡ get_dbs_nodes_for_block s block_id
get_dbs_nodes_for_block-remove_dbs_node id block_id s i others =
    let kept : (v : ℕ)
        → elem v (walked 5 s.ring (wrap s.ring (lower_bound block_id s.ring))) ≡ true
        → stays id s v ≡ true =
      λ v e. ground (arith, others v e) in
    let t = remove_dbs_node id s in
    let it = lower_bound block_id s.ring in
    lookup_walks block_id t
    ∙ ap (λ ring. collect 5 t (wrap ring (lower_bound block_id ring))) (ring_left id s i)
    ∙ ap (λ jt. collect 5 t (wrap (keep (stays id s) s.ring) jt))
        (lower_bound-keep (stays id s) block_id s.ring i.ascending)
    ∙ ap (collect 5 t) (wrap-keep (stays id s) 4 s.ring it kept)
    ∙ collect_left id s i 5 (wrap s.ring it) kept
    ∙ sym (lookup_walks block_id s)
