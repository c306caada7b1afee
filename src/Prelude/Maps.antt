-- ===== src/Prelude/Maps.antt =====
-- `std::unordered_map` with numbers for keys, as an association list in its iteration order.
use Prim.Native.Nat.{ℕ}
use mathlib.Core.Path.{◌≡◌, refl}
use mathlib.Core.List.{List, [], ◌∷◌}
use mathlib.Core.Option.{Option, none, some}
use native.Mathlib.Omega.{arith}
use kapua.Prelude.Tests.{if◌then◌else◌, ◌==◌}

abbrev pub Map {ℓ} : Type ℓ → Type ℓ
Map V = List (ℕ × V)

module _ {ℓ} {V : Type ℓ} where
  -- `m.find(k)`, with `none` for `m.end()`.
  unfoldable pub find : ℕ → Map V → Option V
  find k [] = none
  find k ((j, v) ∷ m) = if j == k then some v else find k m

  -- `m[k] = v`: it overwrites.
  unfoldable pub assign : ℕ → V → Map V → Map V
  assign k v [] = (k, v) ∷ []
  assign k v (entry ∷ m) =
      let rest = assign k v m in if entry.0 == k then (k, v) ∷ m else entry ∷ rest

  -- `m.insert({k, v})`: an entry that is there stays.
  unfoldable pub insert : ℕ → V → Map V → Map V
  insert k v [] = (k, v) ∷ []
  insert k v ((j, w) ∷ m) = if j == k then (j, w) ∷ m else (j, w) ∷ insert k v m

  -- `m.erase(k)`.
  unfoldable pub erase : ℕ → Map V → Map V
  erase k [] = []
  erase k ((j, w) ∷ m) = let rest = erase k m in if j == k then rest else (j, w) ∷ rest

  pub find-assign :
      (k j : ℕ) (v : V) (m : Map V) → find j (assign k v m) ≡ (if k == j then some v else find j m)
  unfolding find assign
  find-assign k j v [] = refl
  find-assign k j v ((i, w) ∷ m) = ground (arith, find-assign k j v m)

  pub find-insert :
      (k j : ℕ) (v : V) (m : Map V)
      → find j (insert k v m)
        ≡ (if k == j then (elim (find k m) [ none ↦ some v | some w ↦ some w ]) else find j m)
  unfolding find insert
  find-insert k j v [] = refl
  find-insert k j v ((i, w) ∷ m) = ground (arith, find-insert k j v m)

  pub find-erase : (k j : ℕ) (m : Map V) → find j (erase k m) ≡ (if k == j then none else find j m)
  unfolding find erase
  find-erase k j [] = ground arith
  find-erase k j ((i, w) ∷ m) = ground (arith, find-erase k j m)

  pub assign-assign : (k : ℕ) (v w : V) (m : Map V) → assign k w (assign k v m) ≡ assign k w m
  unfolding assign
  assign-assign k v w [] = ground arith
  assign-assign k v w ((j, u) ∷ m) = ground (arith, assign-assign k v w m)

-- The keys of a map are distinct, as those of an `unordered_map` are.
abbrev pub Distinct {ℓ} : {V : Type ℓ} → Map V → Type ℓ
Distinct [] = Unit
Distinct ((k, v) ∷ m) = (find k m ≡ none) × Distinct m

pub assign-Distinct {ℓ} :
    {V : Type ℓ} (k : ℕ) (v : V) (m : Map V) → Distinct m → Distinct (assign k v m)
unfolding assign find
assign-Distinct k v [] d = (refl, tt)
assign-Distinct k v ((j, w) ∷ m) d = ground (arith, assign-Distinct k v m d.1, find-assign k j v m)

pub insert-Distinct {ℓ} :
    {V : Type ℓ} (k : ℕ) (v : V) (m : Map V) → Distinct m → Distinct (insert k v m)
unfolding insert find
insert-Distinct k v [] d = (refl, tt)
insert-Distinct k v ((j, w) ∷ m) d = ground (arith, insert-Distinct k v m d.1, find-insert k j v m)
