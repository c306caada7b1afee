-- ===== src/UdpNetwork/Meeting/Turns.antt =====
-- src/UDPNetwork.cpp: how far two nodes have come in taking each other's datagrams, after any turns.
use kapua.Prelude.{
  ℕ, zero, suc, ◌+◌, ◌≤◌, ◌<◌, min, ◌≡◌, refl, ap₂, ◌∙◌, ◌⊎◌, inl, inr, Bool, true, false, List, [],
  ◌∷◌, ◌++◌, ltb, if◌then◌else◌, arith,
}
use kapua.UdpNetwork.Meeting.{includes, IsFair, rest, period}

-- How many datagrams a node has sent when it has taken some of the other's: the discovery, a request and
-- three replies of the first, and a request and three replies of the second.
abbrev pub sent_by_a : ℕ → ℕ
sent_by_a zero = 1
sent_by_a (suc i) = min 5 (i + 3)

abbrev pub sent_by_b : ℕ → ℕ
sent_by_b j = min 4 j

later : (i : ℕ) → sent_by_a i ≤ sent_by_a (suc i)
later zero = omega arith
later (suc i) = omega arith

-- As long as not all is taken, one of the two has something to take.
one_moves : (i j : ℕ) → i ≤ 4 → j ≤ 5 → i + j < 9 → (i < sent_by_b j) ⊎ (j < sent_by_a i)
one_moves zero zero h k l = inr (omega arith)
one_moves zero (suc j) h k l = inl (omega arith)
one_moves (suc i) j h k l = ground arith

pub count_a : (i : ℕ) → sent_by_a i ≤ 5
count_a zero = omega arith
count_a (suc i) = omega arith

pub before_or_not : (i n : ℕ) → (i < n) ⊎ (n ≤ i)
before_or_not i n = ground arith

-- A turn of the first or the second node, at the numbers of datagrams taken.
abbrev pub next_a : ℕ → ℕ → ℕ
next_a i j = if ltb i (sent_by_b j) then suc i else i

abbrev pub next_b : ℕ → ℕ → ℕ
next_b i j = if ltb j (sent_by_a i) then suc j else j

abbrev pub after : List Bool → ℕ → ℕ → ℕ × ℕ
after [] i j = (i, j)
after (false ∷ ts) i j = after ts (next_a i j) j
after (true ∷ ts) i j = after ts i (next_b i j)

pub next_a-le : (i j : ℕ) → i ≤ 4 → next_a i j ≤ 4
next_a-le i j h = ground arith

pub next_b-le : (i j : ℕ) → j ≤ 5 → next_b i j ≤ 5
next_b-le i j h = let short = count_a i in ground (arith, short)

grows_a : (i j : ℕ) → i ≤ next_a i j
grows_a i j = ground arith

grows_b : (i j : ℕ) → j ≤ next_b i j
grows_b i j = ground arith

more_a : (i j : ℕ) → sent_by_a i ≤ sent_by_a (next_a i j)
more_a i j = ground (arith, later i)

more_b : (i j : ℕ) → sent_by_b j ≤ sent_by_b (next_b i j)
more_b i j = omega (arith, grows_b i j)

moved_a : (i j : ℕ) → i < sent_by_b j → i < next_a i j
moved_a i j h = ground arith

moved_b : (i j : ℕ) → j < sent_by_a i → j < next_b i j
moved_b i j h = ground arith

-- Neither node falls back, and one that has a turn and something to take gets on.
record Progress (ts : List Bool) (i j : ℕ) : Type 0 where
  further_a : i ≤ (after ts i j).0
  further_b : j ≤ (after ts i j).1
  moves_a : includes false ts ≡ true → i < sent_by_b j → i < (after ts i j).0
  moves_b : includes true ts ≡ true → j < sent_by_a i → j < (after ts i j).1

progress : (ts : List Bool) (i j : ℕ) → Progress ts i j
progress [] i j = record {
  further_a = omega arith;
  further_b = omega arith;
  moves_a = λ e. absurd (ground arith);
  moves_b = λ e. absurd (ground arith);
}
progress (false ∷ ts) i j =
    let n = progress ts (next_a i j) j in
    record {
      further_a = omega (arith, n.further_a, grows_a i j);
      further_b = n.further_b;
      moves_a = λ e m. omega (arith, n.further_a, moved_a i j m);
      moves_b = λ e m. n.moves_b e (omega (arith, more_a i j));
    }
progress (true ∷ ts) i j =
    let n = progress ts i (next_b i j) in
    record {
      further_a = n.further_a;
      further_b = omega (arith, n.further_b, grows_b i j);
      moves_a = λ e m. n.moves_a e (omega (arith, more_b i j));
      moves_b = λ e m. omega (arith, n.further_b, moved_b i j m);
    }

pub after-le :
    (ts : List Bool) (i j : ℕ) → i ≤ 4 → j ≤ 5 → ((after ts i j).0 ≤ 4) × ((after ts i j).1 ≤ 5)
after-le [] i j h k = (h, k)
after-le (false ∷ ts) i j h k = after-le ts (next_a i j) j (next_a-le i j h) k
after-le (true ∷ ts) i j h k = after-le ts i (next_b i j) h (next_b-le i j k)

after-append :
    (ts us : List Bool) (i j : ℕ)
    → after (ts ++ us) i j ≡ after us (after ts i j).0 (after ts i j).1
after-append [] us i j = refl
after-append (false ∷ ts) us i j = after-append ts us (next_a i j) j
after-append (true ∷ ts) us i j = after-append ts us i (next_b i j)

-- A period in which either node has a turn takes at least one datagram, if one is left.
period_moves :
    (ts : List Bool) (i j : ℕ)
    → i ≤ 4
    → j ≤ 5
    → includes false ts ≡ true
    → includes true ts ≡ true
    → min 9 (suc (i + j)) ≤ (after ts i j).0 + (after ts i j).1
period_moves ts i j h k a b =
    let n = progress ts i j in
    elim (before_or_not (i + j) 9) [
      | inr l ↦ omega (arith, n.further_a, n.further_b)
      | inl l ↦ elim (one_moves i j h k l) [
        | inl m ↦ omega (arith, n.moves_a a m, n.further_b)
        | inr m ↦ omega (arith, n.moves_b b m, n.further_a)
      ]
    ]

-- Nine periods are enough for all datagrams.
pub after-IsFair :
    (n : ℕ) (ts : List Bool) (i j : ℕ)
    → IsFair n ts
    → i ≤ 4
    → j ≤ 5
    → 9 ≤ n + (i + j)
    → after ts i j ≡ (4, 5)
after-IsFair n _ i j (rest ts) h k l =
    let m = progress ts i j in
    let (within, within') = after-le ts i j h k in
    ap₂ (λ x y. (x, y)) (omega (arith, m.further_a, m.further_b))
      (omega (arith, m.further_a, m.further_b))
after-IsFair n _ i j (period m ts us a b fair) h k l =
    let (within, within') = after-le ts i j h k in
    after-append ts us i j
    ∙ after-IsFair m us (after ts i j).0 (after ts i j).1 fair within within'
        (omega (arith, period_moves ts i j h k a b))
