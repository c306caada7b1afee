-- ===== src/BlockStore/Ring.antt =====
-- src/DistributedBlockStore.cpp: the `std::set<uint64_t>` that holds the ring, its iterators, and
-- the laws that the store's proofs use.
use native.Mathlib.Decide.{dec_lt}
use native.Mathlib.Nat.{mod-eq_of_lt, mod_self}
use kapua.Prelude.{
  ℕ, zero, suc, ◌%◌, ◌≤◌, ◌<◌, ◌≡◌, refl, sym, subst, true, false, List, [], ◌∷◌, ltb, ◌==◌,
  if◌then◌else◌, elem, keep, length, drop, arith,
}

-- The elements in ascending order, each once.
unfoldable pub set_insert : ℕ → List ℕ → List ℕ
set_insert v [] = v ∷ []
set_insert v (x ∷ xs) =
    let later = set_insert v xs in
    if ltb v x then v ∷ x ∷ xs else if v == x then x ∷ xs else x ∷ later

unfoldable pub set_erase : ℕ → List ℕ → List ℕ
set_erase v [] = []
set_erase v (x ∷ xs) = let rest = set_erase v xs in if x == v then xs else x ∷ rest

-- An iterator is the part of the set that begins at its element; `end()` is `[]`.
unfoldable pub lower_bound : ℕ → List ℕ → List ℕ
lower_bound b [] = []
lower_bound b (x ∷ xs) = let rest = lower_bound b xs in if ltb x b then rest else x ∷ xs

-- `if (it == ring.end()) it = ring.begin();`
unfoldable pub wrap : List ℕ → List ℕ → List ℕ
wrap ring [] = ring
wrap ring (x ∷ xs) = x ∷ xs

-- Every element is above the one before it, and the first above `b`.
abbrev pub Above : ℕ → List ℕ → Type 0
Above b [] = Unit {0}
Above b (x ∷ xs) = (b < x) × Above x xs

abbrev pub Ascending : List ℕ → Type 0
Ascending [] = Unit {0}
Ascending (x ∷ xs) = Above x xs

pub Above-mono : {a b : ℕ} (xs : List ℕ) → a ≤ b → Above b xs → Above a xs
Above-mono [] h s = tt
Above-mono (x ∷ xs) h s = (omega arith, s.1)

pub Above-Ascending : (b : ℕ) (xs : List ℕ) → Above b xs → Ascending xs
Above-Ascending b [] s = tt
Above-Ascending b (x ∷ xs) s = s.1

set_insert-Above : (b v : ℕ) (xs : List ℕ) → b < v → Above b xs → Above b (set_insert v xs)
unfolding set_insert
set_insert-Above b v [] h s = (h, tt)
set_insert-Above b v (x ∷ xs) h s = ground (arith, set_insert-Above x v xs)

pub set_insert-Ascending : (v : ℕ) (xs : List ℕ) → Ascending xs → Ascending (set_insert v xs)
unfolding set_insert
set_insert-Ascending v [] s = tt
set_insert-Ascending v (x ∷ xs) s = ground (arith, set_insert-Above x v xs)

set_erase-Above : (b v : ℕ) (xs : List ℕ) → Above b xs → Above b (set_erase v xs)
unfolding set_erase
set_erase-Above b v [] s = tt
set_erase-Above b v (x ∷ xs) s =
    ground (arith, set_erase-Above x v xs s.1, Above-mono {a = b} {b = x} xs)

pub set_erase-Ascending : (v : ℕ) (xs : List ℕ) → Ascending xs → Ascending (set_erase v xs)
unfolding set_erase
set_erase-Ascending v [] s = tt
set_erase-Ascending v (x ∷ xs) s = ground (arith, set_erase-Above x v xs s, Above-Ascending x xs s)

-- An element below all of an ascending list is not in it.
elem_of_Above : (v b : ℕ) (xs : List ℕ) → v ≤ b → Above b xs → elem v xs ≡ false
elem_of_Above v b [] h s = refl
elem_of_Above v b (x ∷ xs) h s = ground (arith, elem_of_Above v x xs)

pub elem-set_insert :
    (v w : ℕ) (xs : List ℕ) → elem v (set_insert w xs) ≡ (if w == v then true else elem v xs)
unfolding set_insert
elem-set_insert v w [] = refl
elem-set_insert v w (x ∷ xs) = ground (arith, elem-set_insert v w xs)

pub elem-set_erase :
    (v w : ℕ) (xs : List ℕ)
    → Ascending xs
    → elem v (set_erase w xs) ≡ (if w == v then false else elem v xs)
unfolding set_erase
elem-set_erase v w [] s = ground arith
elem-set_erase v w (x ∷ xs) s =
    ground (arith, elem-set_erase v w xs (Above-Ascending x xs s), elem_of_Above v x xs)

member_of_ascending :
    (v : ℕ) (xs ys : List ℕ)
    → Above v xs
    → Above v ys
    → ((w : ℕ) → elem w (v ∷ xs) ≡ elem w (v ∷ ys))
    → (w : ℕ) → elem w xs ≡ elem w ys
member_of_ascending v xs ys s t same w =
    ground
      (arith, same w, elem_of_Above v v xs (omega arith) s, elem_of_Above v v ys (omega arith) t)

first_of_ascending :
    (x y : ℕ) (xs ys : List ℕ)
    → Above x xs
    → Above y ys
    → ((w : ℕ) → elem w (x ∷ xs) ≡ elem w (y ∷ ys))
    → x ≡ y
first_of_ascending x y xs ys s t same =
    ground (arith, same x, same y, elem_of_Above x y ys, elem_of_Above y x xs)

-- A set has one ascending list.
pub Ascending-elem :
    (xs ys : List ℕ) → Ascending xs → Ascending ys → ((w : ℕ) → elem w xs ≡ elem w ys) → xs ≡ ys
Ascending-elem [] [] s t same = refl
Ascending-elem [] (y ∷ ys) s t same = ground (arith, same y)
Ascending-elem (x ∷ xs) [] s t same = ground (arith, same x)
Ascending-elem (x ∷ xs) (y ∷ ys) s t same =
    let e = first_of_ascending x y xs ys s t same in
    let t' : Above x ys = rw e t in
    let same' = subst (λ z. (w : ℕ) → elem w (x ∷ xs) ≡ elem w (z ∷ ys)) (sym e) same in
    rw (
      e,
      Ascending-elem xs ys (Above-Ascending x xs s) (Above-Ascending x ys t')
          (member_of_ascending x xs ys s t' same'),
    )

-- The number of elements below `b`: the place where the walk for block `b` begins.
abbrev pub rank : ℕ → List ℕ → ℕ
rank b ring = length (keep (λ x. ltb x b) ring)

rank_of_Above : (b x : ℕ) (xs : List ℕ) → b ≤ x → Above x xs → rank b xs ≡ 0
rank_of_Above b x [] h s = refl
rank_of_Above b x (y ∷ ys) h s = ground (arith, rank_of_Above b y ys)

pub lower_bound-drop : (b : ℕ) (xs : List ℕ) → Ascending xs → lower_bound b xs ≡ drop (rank b xs) xs
unfolding lower_bound
lower_bound-drop b [] s = refl
lower_bound-drop b (x ∷ xs) s =
    ground (arith, lower_bound-drop b xs (Above-Ascending x xs s), rank_of_Above b x xs)

pub rank-le-length : (b : ℕ) (xs : List ℕ) → rank b xs ≤ length xs
rank-le-length b [] = omega arith
rank-le-length b (x ∷ xs) = ground (arith, rank-le-length b xs)

-- The element at a place of a list, 0 beyond its end.
abbrev pub at : List ℕ → ℕ → ℕ
at [] i = 0
at (x ∷ xs) zero = x
at (x ∷ xs) (suc i) = at xs i

pub drop-at : (p : ℕ) (xs : List ℕ) → p < length xs → drop p xs ≡ at xs p ∷ drop (suc p) xs
drop-at p [] h = absurd (omega arith)
drop-at zero (x ∷ []) h = refl
drop-at zero (x ∷ y ∷ xs) h = refl
drop-at (suc p) (x ∷ xs) h = drop-at p xs (omega arith)

drop_all : (p : ℕ) (xs : List ℕ) → length xs ≤ p → drop p xs ≡ []
drop_all zero [] h = refl
drop_all (suc p) [] h = refl
drop_all zero (x ∷ xs) h = absurd (omega arith)
drop_all (suc p) (x ∷ xs) h = drop_all p xs (omega arith)

wrap_inside : (p : ℕ) (ring : List ℕ) → p < length ring → wrap ring (drop p ring) ≡ drop p ring
unfolding wrap
wrap_inside p ring h = rw (drop-at p ring h)

wrap_end :
    (p : ℕ) (ring : List ℕ)
    → p ≡ length ring
    → 0 < length ring
    → wrap ring (drop p ring) ≡ drop (p % length ring) ring
unfolding wrap
wrap_end p ring h e =
    let z : p % length ring ≡ 0 = rw (h, mod_self) in rw (drop_all p ring (omega arith), z)

-- At the end the walk goes on at the beginning.
pub wrap-drop :
    (p : ℕ) (ring : List ℕ)
    → p ≤ length ring
    → 0 < length ring
    → wrap ring (drop p ring) ≡ drop (p % length ring) ring
wrap-drop p ring h e = elim (dec_lt p (length ring)) [
  | yes inside ↦ rw (mod-eq_of_lt inside) (wrap_inside p ring inside)
  | no outside ↦ wrap_end p ring (omega arith) e
]
