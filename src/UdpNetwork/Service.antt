-- ===== src/UdpNetwork/Service.antt =====
-- src/UDPNetwork.cpp: `start`, `stop`, `_listen`, `_shutdown`, `_broadcast` and `_main_loop`.
use kapua.Prelude.{
  ℕ, ◌-◌, ◌%◌, ◌≡◌, refl, sym, take, ◌==◌, Bool, true, false, not, ◌&&◌, List, [], ◌∷◌, ◌++◌,
  Option, none, some, leb, if◌then◌else◌, inl, inr, Bool-cases, arith,
}
use kapua.Prelude.Results.{Result, ok, ◌>>=◌}
use kapua.OpenSsl.{OpenSsl}
use kapua.Address.{SockaddrHashable, htons, htonl}
use kapua.Protocol.{Packet, discovery, id_broadcast, new_to, of_bytes, to_bytes, header_size}
use kapua.UdpNetwork.State.{System, Network}
use kapua.UdpNetwork.Send.{send, send_plain, transmit}
use kapua.UdpNetwork.Process.{process_packet}
use kapua.UdpNetwork.Receive.{Incoming, Receiver, receive}

-- The socket, `none` for -1, the sockets that were closed, and whether a thread was made that was not
-- joined.
pub record Service : Type 0 where
  pub is_running : Bool
  pub port : ℕ
  pub socket : Option ℕ
  pub closed : List ℕ
  pub has_thread : Bool

-- What `socket`, `bind` and `setsockopt` give.
pub record SocketCalls : Type 0 where
  pub socket : Option ℕ
  pub binds : Bool
  pub broadcasts : Bool

unfoldable pub shutdown : Service → Service
shutdown s = elim s.socket [
  | none ↦ s
  | some fd ↦ record s { socket = none; closed = fd ∷ s.closed }
]

unfoldable pub listen : SocketCalls → Service → Bool × Service
unfolding shutdown
listen calls s = elim calls.socket [
  | none ↦ (false, record s { socket = none })
  | some fd ↦
      let opened = record s { socket = some fd } in
      if not calls.binds
      then (false, shutdown opened)
      else if not calls.broadcasts
      then (false, shutdown opened)
      else (true, opened)
]

-- The port is a `uint16_t`.
unfoldable pub start : ℕ → Service → Bool × Service
start port s =
    if s.is_running then (false, s) else (true, record s { port = port % 65536; has_thread = true })

-- `stop` up to `join`, and behind it.
unfoldable pub stop : Service → Bool × Service
stop s = if not s.is_running then (false, s) else (true, record s { is_running = false })

unfoldable pub joined : Service → Service
joined s = record s { has_thread = false }

-- `_main_loop` up to its loop, and behind it.
unfoldable pub enter_main_loop : SocketCalls → Service → Bool × Service
unfolding listen
enter_main_loop calls s =
    let (success, s') = listen calls s in
    if not success then (false, shutdown s') else (true, record s' { is_running = true })

unfoldable pub broadcast_address : ℕ → SockaddrHashable
broadcast_address port = record {
  sin_family = 2;
  sin_port = htons port;
  sin_addr = htonl 0xFFFF_FFFF;
}

unfoldable pub broadcast : OpenSsl → System → ℕ → Network → Result Network
broadcast o sys port net = do
  (done, out) ←
      send o sys none (new_to discovery net.core.my_id id_broadcast sys.raw_packet)
        (broadcast_address port)
  ok (record net { sent = net.sent ++ out })

-- The settings for discovery.
pub record Discovery : Type 0 where
  pub enable : Bool
  pub interval_ms : ℕ

-- The first half of the loop's body: a packet, if there is one. Each call has its own random numbers.
unfoldable pub take_packet : OpenSsl → System → System → Incoming → Receiver → Result Receiver
take_packet o sys sys' incoming r = do
  (arrived, r') ← receive o sys incoming r
  net ← (if arrived then process_packet o sys' r'.node (of_bytes r'.memory) r'.net else ok r'.net)
  ok (record r' { net = net })

-- The second half: at the time `now`, in milliseconds, when the last broadcast was at `last`.
unfoldable pub discover : OpenSsl → System → Discovery → ℕ → ℕ → ℕ → Network → Result (ℕ × Network)
unfolding broadcast
discover o sys d port now last net =
    if d.enable && leb d.interval_ms (now - last)
    then (do after ← broadcast o sys port net; ok (now, after))
    else ok (last, net)

-- What one round takes from outside.
pub record Round : Type 0 where
  pub incoming : Incoming
  pub receiving : System
  pub processing : System
  pub sending : System
  pub now : ℕ

-- The loop, over the rounds until the flag is cleared.
unfoldable pub main_loop :
    OpenSsl → Discovery → ℕ → List Round → ℕ → Receiver → Result (ℕ × Receiver)
unfolding take_packet discover
main_loop o d port [] last r = ok (last, r)
main_loop o d port (x ∷ rounds) last r = do
  r' ← take_packet o x.receiving x.processing x.incoming r
  (last', net) ← discover o x.sending d port x.now last r'.net
  main_loop o d port rounds last' (record r' { net = net })

-- A call of `_main_loop` that does not come to its loop leaves no socket open: each that it got is
-- closed, once; one that comes to its loop has its socket open, and `_shutdown` behind the loop closes
-- it. The sockets closed before stay closed, and only in the second case is the flag set.
pub enter_main_loop-shutdown :
    (opened : Option ℕ) (binds broadcasts : Bool) (s : Service)
    → s.is_running ≡ false
    → let calls : SocketCalls = record {
      socket = opened;
      binds = binds;
      broadcasts = broadcasts;
    } in
      let (entered, after) = enter_main_loop calls s in
      (entered ≡ after.is_running)
      × ((shutdown after).socket ≡ none)
      × ((shutdown after).closed ≡ (elim opened [ none ↦ s.closed | some fd ↦ fd ∷ s.closed ]))
      × (after.socket ≡ (if entered then opened else none))
unfolding enter_main_loop
enter_main_loop-shutdown none binds broadcasts s idle = (sym idle, refl, refl, refl)
enter_main_loop-shutdown (some fd) false broadcasts s idle = (sym idle, refl, refl, refl)
enter_main_loop-shutdown (some fd) true false s idle = (sym idle, refl, refl, refl)
enter_main_loop-shutdown (some fd) true true s idle = (refl, refl, refl, refl)

abbrev pub discovery_packet : System → Network → Packet
discovery_packet sys net = new_to discovery net.core.my_id id_broadcast sys.raw_packet

-- What goes out: the header alone.
abbrev pub discovery_bytes : System → Network → List ℕ
discovery_bytes sys net = take header_size (to_bytes (discovery_packet sys net))

-- A round with discovery that finds less than the interval passed changes nothing; one that finds it
-- passed sends one packet, the header of a Discovery in the clear, to every host at the port, keeps the
-- registry, and takes its own time for that of the last broadcast: provided that `sendto` sends it.
pub discover_lem :
    (o : OpenSsl) (sys : System) (d : Discovery) (port now last n : ℕ) (net : Network)
    → d.enable ≡ true
    → sys.sendto (broadcast_address port) (discovery_bytes sys net) ≡ some n
    → discover o sys d port now last net ≡ (
        if leb d.interval_ms (now - last)
        then ok (
          now,
          record net { sent = net.sent ++ (broadcast_address port, discovery_bytes sys net) ∷ [] },
        )
        else ok (last, net))
unfolding discover new_to transmit
discover_lem o sys d port now last n net on sends =
    elim (Bool-cases (leb d.interval_ms (now - last))) [
      | inr e ↦ rw (on, e)
      | inl e ↦
          let clear =
            send_plain o sys none (discovery_packet sys net) (broadcast_address port)
              λ k h. absurd (ground arith) in
          let out : transmit sys (broadcast_address port) header_size (discovery_bytes sys net)
              ≡ (n == header_size, (broadcast_address port, discovery_bytes sys net) ∷ []) =
            rw (sends, transmit) in
          rw (on, e, clear, out)
    ]
