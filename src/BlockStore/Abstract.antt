-- ===== src/BlockStore/Abstract.antt =====
-- src/DistributedBlockStore.cpp: stores up to what can be seen of them, as a quotient, in which the order
-- of joining and leaving is forgotten.
use mathlib.Core.Quot
use mathlib.Core.Quot.{Quot, Quot-set}
use kapua.Prelude.{ℕ, ◌≡◌, ◌≢◌, ap, sym, ◌∙◌, true, false, List, Option, none, some, elem, arith}
use kapua.Prelude.Results.{Result}
use kapua.BlockStore.Invariant.{Inv, Operation, adds, removes, apply, apply-Inv, without_owner}
use kapua.BlockStore.Refinement.{Spec, spec_apply, view, Spec-ext, view-apply, same_lookup}
use kapua.BlockStore.{DistributedBlockStore, get_dbs_nodes_for_block}

abbrev pub Store : Type 0
Store = (s : DistributedBlockStore) × Inv s

-- Two stores have the same owners and the same capacities.
abbrev pub LooksLike : Store → Store → Type 0
LooksLike s t = view s.0 ≡ view t.0

abbrev pub Cluster : Type 0
Cluster = Quot LooksLike

unfoldable pub perform : Operation → Cluster → Cluster
perform o =
    Quot.lift Quot-set (λ s. Quot.mk (apply o s.0, apply-Inv o s.0 s.1))
      λ s t e. Quot.sound (view-apply o s.0 s.1 ∙ ap (spec_apply o) e ∙ sym (view-apply o t.0 t.1))

unfoldable pub lookup : ℕ → Cluster → Result (List ℕ)
lookup block_id =
    Quot.lift (hlevel) (λ s. get_dbs_nodes_for_block s.0 block_id)
      λ s t e. same_lookup block_id s.0 t.0 s.1 t.1 e

-- What two operations do to the specification in either order carries over to every cluster.
commutes :
    (o u : Operation)
    → ((a : Spec) → spec_apply o (spec_apply u a) ≡ spec_apply u (spec_apply o a))
    → (x : Cluster) → perform o (perform u x) ≡ perform u (perform o x)
unfolding perform
commutes o u h =
    Quot.ind (λ x. Quot-set _ _)
      λ s. Quot.sound (
        view-apply o (apply u s.0) (apply-Inv u s.0 s.1)
        ∙ ap (spec_apply o) (view-apply u s.0 s.1)
        ∙ h (view s.0)
        ∙ sym (
            view-apply u (apply o s.0) (apply-Inv o s.0 s.1)
            ∙ ap (spec_apply u) (view-apply o s.0 s.1)))

-- Two operations come to the same cluster in either order, and to the same lookup of a block.
abbrev pub Commute : Operation → Operation → ℕ → Cluster → Type 0
Commute o u block_id x =
    (perform o (perform u x) ≡ perform u (perform o x))
    × (lookup block_id (perform o (perform u x)) ≡ lookup block_id (perform u (perform o x)))

commute :
    (o u : Operation) (block_id : ℕ)
    → ((a : Spec) → spec_apply o (spec_apply u a) ≡ spec_apply u (spec_apply o a))
    → (x : Cluster) → Commute o u block_id x
commute o u block_id h x = let e = commutes o u h x in (e, ap (lookup block_id) e)

-- In which order different nodes join and leave makes no difference to the cluster that comes of it, nor
-- to the lookup of any block: two nodes that join with no virtual node in common, one that joins and
-- another that leaves, and two that leave.
pub perform_comm :
    (a b c d block_id : ℕ) (vids wids : List ℕ) (x : Cluster)
    → a ≢ b
    → ((v : ℕ) → elem v vids ≡ true → elem v wids ≡ false)
    → Commute (adds a vids c) (adds b wids d) block_id x
      × Commute (adds a vids c) (removes b) block_id x
      × Commute (removes a) (removes b) block_id x
perform_comm a b c d block_id vids wids x differ apart = (
  commute (adds a vids c) (adds b wids d) block_id
      (λ z. Spec-ext _ _ (λ v. ground (arith, apart v)) (λ n. ground (arith, differ))) x,
  commute (adds a vids c) (removes b) block_id
      (λ z. Spec-ext _ _ (λ v. ground (arith, differ)) (λ n. ground (arith, differ))) x,
  commute (removes a) (removes b) block_id
      (λ z. Spec-ext _ _ (λ v. either (z.owners v)) (λ n. ground arith)) x,
)
  where
    either :
        (o : Option ℕ) → without_owner a (without_owner b o) ≡ without_owner b (without_owner a o)
    either none = ground arith
    either (some r) = ground arith
