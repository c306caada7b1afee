-- ===== src/Lifetime/Nested.antt =====
-- src/Logger.cpp and its users: objects that are made one after another, and deleted in reverse.
use kapua.Prelude.{
  ℕ, ◌<◌, ◌≤◌, ◌≡◌, refl, ap, ◌∙◌, Bool, true, false, ◌&&◌, ◌||◌, List, [], ◌∷◌, ◌++◌, elem, ◌==◌,
  length, map, arith, if◌then◌else◌, inl, inr, Bool-cases,
}
use kapua.Prelude.Results.{ok, IsOk}
use kapua.Text.{text}
use kapua.Logger.{
  Stream, LogLevel, debug, io_stream_logger, scoped_logger, Loggers, held_back, call,
}
use kapua.UdpNetwork.Service.{Service}
use kapua.Lifetime.Objects.{
  Class, settings, memcached_server, config, rsa, core, network, make, destroy, make_all,
  destroy_all, frees, is_freed, became,
}
use kapua.Lifetime.{Heap, touched}

-- The first logger, and others that write to it.
abbrev Plain : Loggers → Type 0
Plain [] = ⊥
Plain (io_stream_logger level ∷ []) = Unit {0}
Plain (io_stream_logger level ∷ (o ∷ os)) = ⊥
Plain (scoped_logger prefix below level true ∷ os) = ⊥
Plain (scoped_logger prefix below level false ∷ os) = (below ≡ 0) × Plain os

-- A line goes through a logger and the first one.
abbrev Reaches : ℕ → Loggers → Type 0
Reaches a os =
    (touched debug a os ≡ a ∷ 0 ∷ []) × ((time what : List ℕ) → IsOk (call debug time a what os))

some_logger : (os : Loggers) → Plain os → (length os == 0) ≡ false
some_logger [] h = absurd h
some_logger (o ∷ os) h = ground arith

first_reached :
    (os : Loggers)
    → Plain os
    → (touched debug 0 os ≡ 0 ∷ []) × ((time what : List ℕ) → IsOk (call debug time 0 what os))
unfolding call
first_reached [] h = absurd h
first_reached (io_stream_logger level ∷ []) h = (refl, λ time what. (_, refl))
first_reached (io_stream_logger level ∷ (o ∷ os)) h = absurd h
first_reached (scoped_logger prefix below level true ∷ os) h = absurd h
first_reached (scoped_logger prefix below level false ∷ os) (e, h) =
    let there : (0 == length os) ≡ false = ground (arith, some_logger os h) in
    let (through, ends) = first_reached os h in
    (rw (touched, there) through, λ time what. rw (call, there) (ends time what))

Plain-Reaches : (a : ℕ) (os : Loggers) → Plain os → 1 ≤ a → a < length os → Reaches a os
unfolding call held_back
Plain-Reaches a [] h k l = absurd h
Plain-Reaches a (io_stream_logger level ∷ []) h k l = absurd (omega arith)
Plain-Reaches a (io_stream_logger level ∷ (o ∷ os)) h k l = absurd h
Plain-Reaches a (scoped_logger prefix below level true ∷ os) h k l = absurd h
Plain-Reaches a (scoped_logger prefix below level false ∷ os) (e, h) k l =
    elim (Bool-cases (a == length os)) [
      | inr there ↦
          let (through, ends) = Plain-Reaches a os h k (ground (arith, there)) in
          (rw (touched, there) through, λ time what. rw (call, there) (ends time what))
      | inl here ↦
          let (through, ends) = first_reached os h in
          (rw (touched, here, e, through) refl, λ time what. rw (call, here, e) (ends time _))
    ]

abbrev is_owned : ℕ → List (Class × ℕ) → Bool
is_owned a [] = false
is_owned a ((c, b) ∷ xs) = (b == a) || is_owned a xs

-- Objects whose loggers are live and distinct, on a heap where the first logger is live.
abbrev Standing : Heap → List (Class × ℕ) → Type 0
Standing h [] = elem 0 h.deleted ≡ false
Standing h ((c, a) ∷ xs) =
    (elem a h.deleted ≡ false)
    × (1 ≤ a)
    × (is_owned a xs ≡ false)
    × Reaches a h.loggers
    × Standing h xs

first_live : (h : Heap) (xs : List (Class × ℕ)) → Standing h xs → elem 0 h.deleted ≡ false
first_live h [] s = s
first_live h ((c, a) ∷ xs) (live, some, distinct, reaches, s) = first_live h xs s

-- The others stand when one of them is deleted.
without :
    (h : Heap) (xs : List (Class × ℕ)) (a : ℕ) (lines : List (Stream × List ℕ))
    → 1 ≤ a
    → is_owned a xs ≡ false
    → Standing h xs
    → Standing (record h { deleted = a ∷ h.deleted; lines = lines }) xs
without h [] a lines k e s = ground (arith, k, s)
without h ((c, b) ∷ xs) a lines k e (live, some, distinct, reaches, s) =
    (ground (arith, e, live), some, distinct, reaches, without h xs a lines k (ground (arith, e)) s)

quiet :
    (h : Heap) (xs : List (Class × ℕ)) (lines : List (Stream × List ℕ))
    → Standing h xs
    → Standing (record h { lines = lines }) xs
quiet h [] lines s = s
quiet h ((c, b) ∷ xs) lines (live, some, distinct, reaches, s) =
    (live, some, distinct, reaches, quiet h xs lines s)

abbrev remaining : Class → ℕ → List ℕ → List ℕ
remaining c a deleted = if frees c then a ∷ deleted else deleted

destroyed :
    (time : List ℕ) (c : Class) (a : ℕ) (h : Heap)
    → elem a h.deleted ≡ false
    → elem 0 h.deleted ≡ false
    → Reaches a h.loggers
    → (lines : List (Stream × List ℕ)) × (destroy time (c, a) h
        ≡ ok (record h { deleted = remaining c a h.deleted; lines = lines }))
unfolding destroy
destroyed time settings a h live first reaches = (h.lines, rw live refl)
destroyed time memcached_server a h live first reaches = (h.lines, rw live refl)
destroyed time config a h live first reaches = (h.lines, rw live refl)
destroyed time rsa a h live first reaches = (h.lines, rw live refl)
destroyed time (network s) a h live first reaches = (h.lines, rw live refl)
destroyed time core a h live first (through, ends) =
    let (out, e) = ends time (text "Stopped") in (h.lines ++ out, rw (through, live, first, e) refl)

others_stand :
    (c : Class) (h : Heap) (xs : List (Class × ℕ)) (a : ℕ) (lines : List (Stream × List ℕ))
    → 1 ≤ a
    → is_owned a xs ≡ false
    → Standing h xs
    → Standing (record h { deleted = remaining c a h.deleted; lines = lines }) xs
others_stand core h xs a lines k e s = quiet h xs lines s
others_stand settings h xs a lines k e s = without h xs a lines k e s
others_stand memcached_server h xs a lines k e s = without h xs a lines k e s
others_stand config h xs a lines k e s = without h xs a lines k e s
others_stand rsa h xs a lines k e s = without h xs a lines k e s
others_stand (network n) h xs a lines k e s = without h xs a lines k e s

freed_or_deleted :
    (f r : Bool) (a b : ℕ) (deleted : List ℕ)
    → (r || elem b (if f then a ∷ deleted else deleted))
      ≡ ((((a == b) && f) || r) || elem b deleted)
freed_or_deleted false false a b deleted = ground arith
freed_or_deleted false true a b deleted = ground arith
freed_or_deleted true false a b deleted = ground arith
freed_or_deleted true true a b deleted = ground arith

destroy_all-Standing :
    (time : List ℕ) (xs : List (Class × ℕ)) (h : Heap)
    → Standing h xs
    → (h' : Heap) × (destroy_all time xs h ≡ ok h')
      × ((b : ℕ) → elem b h'.deleted ≡ (is_freed b xs || elem b h.deleted))
unfolding destroy_all
destroy_all-Standing time [] h s = (h, refl, λ b. refl)
destroy_all-Standing time ((c, a) ∷ xs) h (live, some, distinct, reaches, s) =
    let (lines, e) = destroyed time c a h live (first_live h xs s) reaches in
    let (h', rest, deleted) =
      destroy_all-Standing time xs (record h { deleted = remaining c a h.deleted; lines = lines })
        (others_stand c h xs a lines some distinct s) in
    (h', rw e rest, λ b. deleted b ∙ freed_or_deleted (frees c) (is_freed b xs) a b h.deleted)

-- Objects in the order that they were made, the last in front, with loggers behind the first.
abbrev Descending : ℕ → List (Class × ℕ) → Type 0
Descending n [] = Unit {0}
Descending n ((c, a) ∷ xs) = (1 ≤ a) × (a < n) × Descending a xs

not_owned : (n a : ℕ) (xs : List (Class × ℕ)) → n ≤ a → Descending n xs → is_owned a xs ≡ false
not_owned n a [] h d = refl
not_owned n a ((c, b) ∷ xs) h (some, below, d) =
    let later = not_owned b a xs (omega (arith, below, h)) d in ground (arith, later, below, h)

Descending-Standing :
    (n : ℕ) (h : Heap) (xs : List (Class × ℕ))
    → Plain h.loggers
    → h.deleted ≡ []
    → n ≤ length h.loggers
    → Descending n xs
    → Standing h xs
Descending-Standing n h [] plain none l d = ap (elem 0) none
Descending-Standing n h ((c, a) ∷ xs) plain none l (some, below, d) = (
  ap (elem a) none,
  some,
  not_owned a a xs (omega arith) d,
  Plain-Reaches a h.loggers plain some (omega (arith, below, l)),
  Descending-Standing a h xs plain none (omega (arith, below, l)) d,
)

Descending-became :
    (during : Service → Service) (c : Class) (a n : ℕ) (xs : List (Class × ℕ))
    → 1 ≤ a
    → a < n
    → Descending a xs
    → Descending n (became during (c, a) ∷ xs)
Descending-became during settings a n xs h l d = (h, l, d)
Descending-became during memcached_server a n xs h l d = (h, l, d)
Descending-became during config a n xs h l d = (h, l, d)
Descending-became during rsa a n xs h l d = (h, l, d)
Descending-became during core a n xs h l d = (h, l, d)
Descending-became during (network s) a n xs h l d = (h, l, d)

made :
    (c : Class) (level : LogLevel) (h : Heap)
    → (c' : Class) × (prefix : List ℕ) × (make c level h ≡ (
      (c', length h.loggers),
      record h { loggers = scoped_logger prefix 0 level false ∷ h.loggers },
    ))
unfolding make
made settings level h = (_, _, refl)
made memcached_server level h = (_, _, refl)
made config level h = (_, _, refl)
made rsa level h = (_, _, refl)
made core level h = (_, _, refl)
made (network s) level h = (_, _, refl)

abbrev Orderly : (Service → Service) → List (Class × ℕ) × Heap → Type 0
Orderly during (xs, h) =
    Plain h.loggers
    × (h.deleted ≡ [])
    × (1 ≤ length h.loggers)
    × Descending (length h.loggers) (map (became during) xs)

make_all-Orderly :
    (level : LogLevel) (during : Service → Service) (cs : List Class) (h : Heap)
    → Orderly during ([], h)
    → Orderly during (make_all level cs h)
unfolding make_all
make_all-Orderly level during [] h ordered = ordered
make_all-Orderly level during (c ∷ cs) h ordered =
    let (plain, none, some, descends) = make_all-Orderly level during cs h ordered in
    let (xs, h') = make_all level cs h in
    let (c', prefix, e) = made c level h' in
    rw e (
      (refl, plain),
      none,
      omega arith,
      Descending-became during c' (length h'.loggers) _ _ some (omega arith) descends,
    )

none_deleted : (x : Bool) (a : ℕ) (deleted : List ℕ) → deleted ≡ [] → (x || elem a deleted) ≡ x
none_deleted true a deleted none = refl
none_deleted false a deleted none = ap (elem a) none

-- Objects of any classes that are made one after another, each with the same logger for its lines, and
-- deleted in reverse, whatever became of the networks among them: no destructor uses or deletes a logger
-- that was deleted, and in the end the logger of every object was deleted but those of the Cores.
pub destroy_all-make_all :
    (time : List ℕ) (level first : LogLevel) (during : Service → Service) (cs : List Class)
    → let h : Heap = record { loggers = io_stream_logger first ∷ []; deleted = []; lines = [] } in
      let (objects_made, before) = make_all level cs h in
      let objects = map (became during) objects_made in
      (after : Heap) × (destroy_all time objects before ≡ ok after)
      × ((a : ℕ) → elem a after.deleted ≡ is_freed a objects)
destroy_all-make_all time level first during cs =
    let h : Heap = record { loggers = io_stream_logger first ∷ []; deleted = []; lines = [] } in
    let (plain, none, some, descends) =
      make_all-Orderly level during cs h (tt, refl, omega arith, tt) in
    let (after, ends, deleted) =
      destroy_all-Standing time _ (make_all level cs h).1
        (Descending-Standing _ (make_all level cs h).1 _ plain none (omega arith) descends) in
    (after, ends, λ a. deleted a ∙ none_deleted _ a (make_all level cs h).1.deleted none)
