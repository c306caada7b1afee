-- ===== src/UdpNetwork/Threads.antt =====
-- src/UDPNetwork.cpp: `start` and `stop` against `_main_loop`, which runs in a thread of its own, as
-- interleaved steps of the threads.
pub mod Endless
use kapua.Prelude.{
  ℕ, ◌≡◌, ◌≢◌, refl, true, false, none, arith, inl, inr, ◌∙◌, subst, List, [], ◌∷◌, Option-cases,
}
use kapua.Core.Threads.{Worker, none_yet, created, looping, returned, Owner, free, joining}
use kapua.UdpNetwork.Service.{
  Service, SocketCalls, start, stop, joined, listen, shutdown, enter_main_loop,
}

-- `worker` is the thread that `_main_thread` refers to, `none_yet` where that is null. `start` looks at the
-- flag alone, so it may overwrite the handle of a thread that is still there; `lost` are those threads.
pub record Machine : Type 0 where
  pub service : Service
  pub worker : Worker
  pub lost : List Worker
  pub owner : Owner

-- A step of one thread in `_main_loop`.
pub data Moves : Service → Worker → Service → Worker → Type 0 where
  enters :
      {s t : Service} (calls : SocketCalls)
      → enter_main_loop calls s ≡ (true, t)
      → Moves s created t looping
  gives_up :
      {s t : Service} (calls : SocketCalls)
      → enter_main_loop calls s ≡ (false, t)
      → Moves s created t returned
  rounds : {s : Service} → s.is_running ≡ true → Moves s looping s looping
  leaves : {s : Service} → s.is_running ≡ false → Moves s looping (shutdown s) returned

-- A step of one of several threads.
pub data OneMoves : Service → List Worker → Service → List Worker → Type 0 where
  this :
      {s t : Service} {w v : Worker} {ws : List Worker}
      → Moves s w t v
      → OneMoves s (w ∷ ws) t (v ∷ ws)
  later :
      {s t : Service} {w : Worker} {ws vs : List Worker}
      → OneMoves s ws t vs
      → OneMoves s (w ∷ ws) t (w ∷ vs)

-- One step of any thread. The owner waits in `join` for the thread of the handle alone. Where the handle is
-- null, `join` is undefined, and the owner has no step behind it.
pub data Step : Machine → Machine → Type 0 where
  starts :
      {s t : Service} {w : Worker} {ws : List Worker} (port : ℕ)
      → start port s ≡ (true, t)
      → Step
          (record { service = s; worker = w; lost = ws; owner = free })
          (record { service = t; worker = created; lost = w ∷ ws; owner = free })
  start_is_refused :
      {s t : Service} {w : Worker} {ws : List Worker} (port : ℕ)
      → start port s ≡ (false, t)
      → Step
          (record { service = s; worker = w; lost = ws; owner = free })
          (record { service = t; worker = w; lost = ws; owner = free })
  works :
      {s t : Service} {w v : Worker} {ws : List Worker} {o : Owner}
      → Moves s w t v
      → Step
          (record { service = s; worker = w; lost = ws; owner = o })
          (record { service = t; worker = v; lost = ws; owner = o })
  lost_works :
      {s t : Service} {w : Worker} {ws vs : List Worker} {o : Owner}
      → OneMoves s ws t vs
      → Step
          (record { service = s; worker = w; lost = ws; owner = o })
          (record { service = t; worker = w; lost = vs; owner = o })
  stops :
      {s t : Service} {w : Worker} {ws : List Worker}
      → stop s ≡ (true, t)
      → Step
          (record { service = s; worker = w; lost = ws; owner = free })
          (record { service = t; worker = w; lost = ws; owner = joining })
  stop_is_refused :
      {s t : Service} {w : Worker} {ws : List Worker}
      → stop s ≡ (false, t)
      → Step
          (record { service = s; worker = w; lost = ws; owner = free })
          (record { service = t; worker = w; lost = ws; owner = free })
  joins :
      {s : Service} {ws : List Worker}
      → Step
          (record { service = s; worker = returned; lost = ws; owner = joining })
          (record { service = joined s; worker = none_yet; lost = ws; owner = free })

pub data Run : Machine → Machine → Type 0 where
  here : {m : Machine} → Run m m
  next : {m n k : Machine} → Step m n → Run n k → Run m k

abbrev pub IsAtRest : Worker → Type 0
IsAtRest none_yet = Unit {0}
IsAtRest created = ⊥
IsAtRest looping = ⊥
IsAtRest returned = Unit {0}

abbrev pub AllAtRest : List Worker → Type 0
AllAtRest [] = Unit {0}
AllAtRest (w ∷ ws) = IsAtRest w × AllAtRest ws

-- The owner starts the network only when the thread from before has returned, if there was one: what
-- the code does not see to.
abbrev pub IsPatientStep : {m n : Machine} → Step m n → Type 0
IsPatientStep (starts {s} {t} {w} {ws} port e) = IsAtRest w
IsPatientStep _ = Unit {0}

abbrev pub IsPatient : {m n : Machine} → Run m n → Type 0
IsPatient here = Unit {0}
IsPatient (next step run) = IsPatientStep step × IsPatient run

-- What holds of the service in each position of the threads: a thread that is in its loop has not
-- been told to end if nobody waits for it, and has if somebody does; without such a thread the flag is
-- clear and no socket is open. The threads without a handle have returned.
pub data Consistent : Machine → Type 0 where
  idles :
      {s : Service} {w : Worker} {ws : List Worker}
      → s.is_running ≡ false
      → s.socket ≡ none
      → w ≢ looping
      → AllAtRest ws
      → Consistent (record { service = s; worker = w; lost = ws; owner = free })
  serves :
      {s : Service} {ws : List Worker}
      → s.is_running ≡ true
      → AllAtRest ws
      → Consistent (record { service = s; worker = looping; lost = ws; owner = free })
  ends :
      {s : Service} {ws : List Worker}
      → s.is_running ≡ false
      → AllAtRest ws
      → Consistent (record { service = s; worker = looping; lost = ws; owner = joining })
  ended :
      {s : Service} {ws : List Worker}
      → s.is_running ≡ false
      → s.socket ≡ none
      → AllAtRest ws
      → Consistent (record { service = s; worker = returned; lost = ws; owner = joining })

entered :
    (calls : SocketCalls) (s t : Service)
    → enter_main_loop calls s ≡ (true, t)
    → t.is_running ≡ true
unfolding enter_main_loop
entered calls s t e = ground (arith, e)

given_up :
    (calls : SocketCalls) (s t : Service)
    → s.is_running ≡ false
    → enter_main_loop calls s ≡ (false, t)
    → (t.is_running ≡ false) × (t.socket ≡ none)
unfolding enter_main_loop listen shutdown
given_up calls s t f e = ground (arith, e, f)

stopped : (s t : Service) → stop s ≡ (true, t) → (s.is_running ≡ true) × (t.is_running ≡ false)
unfolding stop
stopped s t e = ground (arith, e)

refused : (s t : Service) → stop s ≡ (false, t) → s ≡ t
unfolding stop
refused s t e = ground (arith, e)

started :
    (port : ℕ) (s t : Service)
    → start port s ≡ (true, t)
    → (s.is_running ≡ false) × (t.is_running ≡ false) × (t.socket ≡ s.socket)
unfolding start
started port s t e = ground (arith, e)

closed_by : (s : Service) → (shutdown s).socket ≡ none × ((shutdown s).is_running ≡ s.is_running)
unfolding shutdown
closed_by s = elim (Option-cases s.socket) [
  | inl e ↦ rw (shutdown, e) (e, refl)
  | inr (fd, e) ↦ rw (shutdown, e) (refl, refl)
]

refused_start : (port : ℕ) (s t : Service) → start port s ≡ (false, t) → s ≡ t
unfolding start
refused_start port s t e = ground (arith, e)

still : {s t : Service} {ws vs : List Worker} → OneMoves s ws t vs → AllAtRest ws → ⊥
still (this (enters calls e)) (r, rs) = r
still (this (gives_up calls e)) (r, rs) = r
still (this (rounds e)) (r, rs) = r
still (this (leaves e)) (r, rs) = r
still (later m) (r, rs) = still m rs

Consistent-Moves :
    {s t : Service} {w v : Worker} {ws : List Worker} {o : Owner}
    → Moves s w t v
    → Consistent (record { service = s; worker = w; lost = ws; owner = o })
    → Consistent (record { service = t; worker = v; lost = ws; owner = o })
Consistent-Moves (enters {s} {t} calls e) (idles f n l rs) = serves (entered calls s t e) rs
Consistent-Moves (gives_up {s} {t} calls e) (idles f n l rs) =
    let (clear, none_open) = given_up calls s t f e in
    idles clear none_open (λ h. absurd (ground (arith, h))) rs
Consistent-Moves (rounds e) c = c
Consistent-Moves (leaves e) (idles f n l rs) = absurd (l refl)
Consistent-Moves (leaves e) (serves g rs) = absurd (ground (arith, e, g))
Consistent-Moves (leaves {s} e) (ends g rs) =
    let (none_open, same) = closed_by s in ended (same ∙ g) none_open rs

Consistent-Step :
    {m n : Machine} (step : Step m n) → IsPatientStep step → Consistent m → Consistent n
unfolding joined
Consistent-Step (starts {s} {t} port e) r (idles f n l rs) =
    let (_, clear, same) = started port s t e in
    idles clear (same ∙ n) (λ h. absurd (ground (arith, h))) (r, rs)
Consistent-Step (starts port e) r (serves g rs) = absurd r
Consistent-Step (start_is_refused {s} {t} {w} {ws} port e) r c =
    subst (λ x. Consistent (record { service = x; worker = w; lost = ws; owner = free }))
      (refused_start port s t e) c
Consistent-Step (works m) r c = Consistent-Moves m c
Consistent-Step (lost_works m) r (idles f n l rs) = absurd (still m rs)
Consistent-Step (lost_works m) r (serves g rs) = absurd (still m rs)
Consistent-Step (lost_works m) r (ends g rs) = absurd (still m rs)
Consistent-Step (lost_works m) r (ended g n rs) = absurd (still m rs)
Consistent-Step (stops {s} {t} e) r (idles f n l rs) = absurd (ground (arith, f, (stopped s t e).0))
Consistent-Step (stops {s} {t} e) r (serves g rs) = ends ((stopped s t e).1) rs
Consistent-Step (stop_is_refused {s} {t} {w} {ws} e) r c =
    subst (λ x. Consistent (record { service = x; worker = w; lost = ws; owner = free }))
      (refused s t e) c
Consistent-Step joins r (ended f n rs) = idles f n (λ h. absurd (ground (arith, h))) rs

Consistent-Run : {m n : Machine} (run : Run m n) → IsPatient run → Consistent m → Consistent n
Consistent-Run here r c = c
Consistent-Run (next step run) (r, rs) c = Consistent-Run run rs (Consistent-Step step r c)

-- Nothing runs and nothing is open.
pub record Quiet (m : Machine) : Type 0 where
  pub worker : m.worker ≡ none_yet
  pub lost : AllAtRest m.lost
  pub owner : m.owner ≡ free
  pub flag : m.service.is_running ≡ false
  pub socket : m.service.socket ≡ none

returns : {m : Machine} → Consistent m → m.owner ≡ joining → (k : Machine) × Run m k × Quiet k
unfolding joined
returns (idles f n l rs) e = absurd (ground (arith, e))
returns (serves g rs) e = absurd (ground (arith, e))
returns (ends {s} {ws} f rs) e =
    let (none_open, same) = closed_by s in
    (
      record { service = joined (shutdown s); worker = none_yet; lost = ws; owner = free },
      next (works (leaves f)) (next joins here),
      record { worker = refl; lost = rs; owner = refl; flag = same ∙ f; socket = none_open },
    )
returns (ended {s} {ws} f n rs) e = (
  record { service = joined s; worker = none_yet; lost = ws; owner = free },
  next joins here,
  record { worker = refl; lost = rs; owner = refl; flag = f; socket = n },
)

-- However the threads come to a point where the owner waits in `stop`, from a quiet service, with any
-- stops before and with any starts, refused, failed or successful, as long as the owner calls `start`
-- only when the thread of the start before has returned or there was none: the thread's own steps from
-- there let `stop` return, and then no thread runs, the flag is clear and no socket is open. In
-- particular such a `stop` never waits for a thread that has yet to come to its loop.
pub stop_leads_to_Quiet :
    (s : Service) (m : Machine)
    → s.is_running ≡ false
    → s.socket ≡ none
    → (run : Run (record { service = s; worker = none_yet; lost = []; owner = free }) m)
    → IsPatient run
    → m.owner ≡ joining
    → (k : Machine) × Run m k × Quiet k
stop_leads_to_Quiet s m f n run patient e =
    returns (Consistent-Run run patient (idles f n (λ h. absurd (ground (arith, h))) tt)) e
