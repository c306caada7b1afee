-- ===== src/UdpNetwork/Threads/Endless.antt =====
-- src/UDPNetwork.cpp: a second `start` before the thread of the first has come to its loop.
use kapua.Prelude.{ℕ, ◌%◌, ◌≡◌, refl, true, false, List, [], ◌∷◌, some, arith}
use kapua.Core.Threads.{Worker, none_yet, looping, returned, free, joining}
use kapua.UdpNetwork.Service.{Service, SocketCalls, start, stop, listen, shutdown, enter_main_loop}
use kapua.UdpNetwork.Threads.{
  Machine, Moves, enters, leaves, gives_up, rounds, OneMoves, this, later, Step, starts,
  start_is_refused, works, lost_works, stops, stop_is_refused, joins, Run, here, next,
}

abbrev good : ℕ → SocketCalls
good fd = record { socket = some fd; binds = true; broadcasts = true }

abbrev pub unstarted : Service → Machine
unstarted s = record { service = s; worker = none_yet; lost = []; owner = free }

-- The owner waits for the thread of the second start, which is in its loop with the flag set.
abbrev pub endless : ℕ → ℕ → ℕ → Service → Machine
endless port first second s = record {
  service = record s {
    port = port % 65536;
    is_running = true;
    has_thread = true;
    socket = some second;
    closed = first ∷ s.closed;
  };
  worker = looping;
  lost = returned ∷ none_yet ∷ [];
  owner = joining;
}

-- Two starts; the first thread comes to its loop, the owner calls `stop`, the first thread returns and
-- closes its socket, and the second, for which `stop` waits, sets the flag again.
comes_to_endless :
    (s : Service) (port port' first second : ℕ)
    → s.is_running ≡ false
    → Run (unstarted s) (endless port' first second s)
unfolding start stop enter_main_loop listen shutdown
comes_to_endless s port port' first second clear =
    next
      (starts {t = record s { port = port % 65536; has_thread = true }} port
        (rw (clear, start) refl))
      (next
        (starts {t = record s { port = port' % 65536; has_thread = true }} port'
          (rw (clear, start) refl))
        (next (lost_works (this (enters (good first) refl))) (
          next (stops refl) (
            next (lost_works (this (leaves refl)))
              (next (works (enters (good second) refl)) here)))))

-- The owner waits for a thread in its loop, and nobody clears the flag.
data IsEndless : Machine → Type 0 where
  waits :
      {s : Service} {ws : List Worker}
      → s.is_running ≡ true
      → IsEndless (record { service = s; worker = looping; lost = ws; owner = joining })

still_set :
    {s t : Service} {w v : Worker} → Moves s w t v → s.is_running ≡ true → t.is_running ≡ true
unfolding enter_main_loop listen shutdown
still_set (enters {s} {t} calls e) set = ground (arith, e, set)
still_set (gives_up {s} {t} calls e) set = ground (arith, e, set)
still_set (rounds e) set = set
still_set (leaves e) set = absurd (ground (arith, e, set))

still_set_by_one :
    {s t : Service} {ws vs : List Worker}
    → OneMoves s ws t vs
    → s.is_running ≡ true
    → t.is_running ≡ true
still_set_by_one (this m) set = still_set m set
still_set_by_one (later m) set = still_set_by_one m set

IsEndless-Step : {m n : Machine} → Step m n → IsEndless m → IsEndless n
IsEndless-Step (works (rounds e)) (waits set) = waits set
IsEndless-Step (works (leaves e)) (waits set) = absurd (ground (arith, e, set))
IsEndless-Step (lost_works m) (waits set) = waits (still_set_by_one m set)
IsEndless-Step (works (enters calls e)) w = elim w [ ]
IsEndless-Step (works (gives_up calls e)) w = elim w [ ]
IsEndless-Step (starts port e) w = elim w [ ]
IsEndless-Step (start_is_refused port e) w = elim w [ ]
IsEndless-Step (stops e) w = elim w [ ]
IsEndless-Step (stop_is_refused e) w = elim w [ ]
IsEndless-Step joins w = elim w [ ]

IsEndless-Run : {m n : Machine} → Run m n → IsEndless m → IsEndless n
IsEndless-Run here e = e
IsEndless-Run (next step run) e = IsEndless-Run run (IsEndless-Step step e)

waiting : {n : Machine} → IsEndless n → (n.owner ≡ joining) × (n.worker ≡ looping)
waiting (waits set) = (refl, refl)

-- Where `start` is called twice before the first thread has come to its loop, as it allows, the threads can
-- come to a point where `stop` waits for the second thread, which is in its loop; from then on, whatever
-- they do, `stop` waits and the loop goes on.
pub second_start_endless :
    (s : Service) (port port' first second : ℕ) (n : Machine)
    → s.is_running ≡ false
    → Run (endless port' first second s) n
    → Run (unstarted s) (endless port' first second s) × (n.owner ≡ joining) × (n.worker ≡ looping)
second_start_endless s port port' first second n clear run =
    let (waits_still, loops) = waiting (IsEndless-Run run (waits refl)) in
    (comes_to_endless s port port' first second clear, waits_still, loops)
