-- ===== src/Core/Threads.antt =====
-- src/Core.cpp: `start` and `stop` against `_main_loop`, which runs in a thread of its own, as
-- interleaved steps of the two threads.
use kapua.Prelude.{ℕ, ◌≡◌, refl, true, false, arith, ◌⊎◌, inl, inr}
use kapua.Core.{Core, Action, queue_action, start, stop, enter_main_loop, main_loop_round}

-- The thread that runs `_main_loop`: there is none, it has not come to `if (_running)` yet, it is in the
-- loop, or it has returned.
pub data Worker : Type 0 where
  none_yet created looping returned : Worker

-- The thread that owns the core: between calls, or in `stop` at `_thread.join()`.
pub data Owner : Type 0 where
  free joining : Owner

pub record Machine : Type 0 where
  pub core : Core
  pub worker : Worker
  pub owner : Owner

-- One step of either thread. Any thread may queue an action at any time.
pub data Step : Machine → Machine → Type 0 where
  starts :
      {c : Core} (id : ℕ)
      → Step
          (record { core = c; worker = none_yet; owner = free })
          (record { core = start id c; worker = created; owner = free })
  enters :
      {c d : Core} {o : Owner}
      → enter_main_loop c ≡ (true, d)
      → Step
          (record { core = c; worker = created; owner = o })
          (record { core = d; worker = looping; owner = o })
  gives_up :
      {c d : Core} {o : Owner}
      → enter_main_loop c ≡ (false, d)
      → Step
          (record { core = c; worker = created; owner = o })
          (record { core = d; worker = returned; owner = o })
  rounds :
      {c : Core} {o : Owner}
      → c.is_running ≡ true
      → Step
          (record { core = c; worker = looping; owner = o })
          (record { core = (main_loop_round c).1; worker = looping; owner = o })
  leaves :
      {c : Core} {o : Owner}
      → c.is_running ≡ false
      → Step
          (record { core = c; worker = looping; owner = o })
          (record { core = c; worker = returned; owner = o })
  queues :
      {c : Core} {w : Worker} {o : Owner} (a : Action)
      → Step
          (record { core = c; worker = w; owner = o })
          (record { core = queue_action a c; worker = w; owner = o })
  stops :
      {c : Core} {w : Worker}
      → Step
          (record { core = c; worker = w; owner = free })
          (record { core = stop c; worker = w; owner = joining })
  joins :
      {c : Core}
      → Step
          (record { core = c; worker = returned; owner = joining })
          (record { core = c; worker = none_yet; owner = free })

pub data Run : Machine → Machine → Type 0 where
  here : {m : Machine} → Run m m
  next : {m n k : Machine} → Step m n → Run n k → Run m k

-- The owner waits, and the loop that it waits for has no reason to end.
pub record Stuck (m : Machine) : Type 0 where
  pub worker : m.worker ≡ looping
  pub owner : m.owner ≡ joining
  pub running : m.core.is_running ≡ true

Stuck-Step : {m n : Machine} → Step m n → Stuck m → Stuck n
unfolding main_loop_round queue_action
Stuck-Step (starts id) s = absurd (ground (arith, s.owner))
Stuck-Step (enters e) s = absurd (ground (arith, s.worker))
Stuck-Step (gives_up e) s = absurd (ground (arith, s.worker))
Stuck-Step (rounds e) s = record { worker = s.worker; owner = s.owner; running = s.running }
Stuck-Step (leaves e) s = absurd (ground (arith, s.running, e))
Stuck-Step (queues a) s = record { worker = s.worker; owner = s.owner; running = s.running }
Stuck-Step stops s = absurd (ground (arith, s.owner))
Stuck-Step joins s = absurd (ground (arith, s.worker))

Stuck-Run : {m n : Machine} → Run m n → Stuck m → Stuck n
Stuck-Run here s = s
Stuck-Run (next step run) s = Stuck-Run run (Stuck-Step step s)

abbrev pub unstarted : Core → Machine
unstarted c = record { core = c; worker = none_yet; owner = free }

-- The loop entered behind `start` and `stop`.
abbrev pub late_loop : ℕ → Core → Machine
late_loop id c = record {
  core = record (stop (start id c)) { is_running = true };
  worker = looping;
  owner = joining;
}

-- When `stop` comes before the new thread has come to its loop, the thread can still enter the loop, as
-- it sets the flag that `stop` cleared; from then on, whatever the threads do, the loop goes on and
-- `stop` never returns.
pub stop_before_loop :
    (id : ℕ) (c : Core) (n : Machine)
    → Run (late_loop id c) n
    → Run (unstarted c) (late_loop id c)
      × (n.owner ≡ joining)
      × (n.worker ≡ looping)
      × (n.core.is_running ≡ true)
unfolding start stop enter_main_loop
stop_before_loop id c n run =
    let stuck = Stuck-Run run (record { worker = refl; owner = refl; running = refl }) in
    (
      next (starts id) (next stops (next (enters refl) here)),
      stuck.owner,
      stuck.worker,
      stuck.running,
    )

-- The owner waits for a thread that ends its loop or has ended it.
pub data Leaving : Machine → Type 0 where
  ends :
      {c : Core}
      → c.is_running ≡ false
      → Leaving (record { core = c; worker = looping; owner = joining })
  ended : {c : Core} → Leaving (record { core = c; worker = returned; owner = joining })

Leaving-Step : {m n : Machine} → Leaving m → Step m n → Leaving n ⊎ (n.owner ≡ free)
unfolding queue_action
Leaving-Step (ends f) (rounds e) = absurd (ground (arith, f, e))
Leaving-Step (ends f) (leaves e) = inl ended
Leaving-Step (ends f) (queues a) = inl (ends f)
Leaving-Step ended (queues a) = inl ended
Leaving-Step ended joins = inr refl

-- When `stop` comes to a thread that is in its loop, it returns: the owner waits with the flag cleared,
-- every step that either thread takes leads on to such a wait or ends it, and at any such wait the
-- thread's own steps to the end of the loop let `stop` return.
pub stop_returns :
    (c : Core) (m n : Machine)
    → Leaving m
    → Step m n
    → Leaving (record { core = stop c; worker = looping; owner = joining })
      × (Leaving n ⊎ (n.owner ≡ free))
      × (k : Machine) × Run m k
      × (k.owner ≡ free)
unfolding stop
stop_returns c m n l step =
    let (k, run, freed) = returns l in (ends refl, Leaving-Step l step, k, run, freed)
  where
    returns : {m : Machine} → Leaving m → (k : Machine) × Run m k × (k.owner ≡ free)
    returns (ends {c} f) = (unstarted c, next (leaves f) (next joins here), refl)
    returns (ended {c}) = (unstarted c, next joins here, refl)
