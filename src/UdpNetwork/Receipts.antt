-- ===== src/UdpNetwork/Receipts.antt =====
-- src/UDPNetwork.cpp: runs of `_receive`, and the theorems on them there.
use kapua.Prelude.{
  ℕ, ◌≡◌, refl, true, false, List, [], ◌∷◌, none, some, replicate, take, drop, arith,
  length-replicate,
}
use kapua.Prelude.Bytes.{overwrite, le_bytes, from_le}
use kapua.Prelude.Maps.{find}
use kapua.Prelude.Results.{ok, throws, runtime_error}
use kapua.OpenSsl.Toy.{toy, toy-IsCbc, toy-Inverts, toy-IsSized}
use kapua.Address.{find_addr, insert_addr, addr_eq}
use kapua.Address.Tests.{local_host, elsewhere}
use kapua.Node.{Node}
use kapua.Protocol.{
  Packet, public_key_reply, type_of, new_to, to_bytes, of_bytes, fields_then, header_size,
  check_magic_valid, check_version_valid,
}
use kapua.Protocol.Tests.{sample, sample-IsWire}
use kapua.Rsa.Tests.{session_key}
use kapua.UdpNetwork.Receive.{failed, datagram, Receiver, receive}
use kapua.UdpNetwork.Reception.{Accepted, unlocked, receive-Accepted}
use kapua.UdpNetwork.Delivery.{Knows, Arrives, message, failed_receive_repeats, encrypted_delivery}
use kapua.UdpNetwork.Tests.{
  net, sys, secure, waiting, key_reply, sent_update, sent_final, sample_Encrypts,
}
use kapua.UdpNetwork.Strangers.{unknown_sender_accepted}
use kapua.UdpNetwork.Service.{
  Service, SocketCalls, start, stop, enter_main_loop, listen, Discovery, shutdown, enter_main_loop,
  enter_main_loop-shutdown, discover, broadcast_address, discovery_bytes, discover_lem, Round,
  main_loop,
}
use kapua.UdpNetwork.Runs.{with_peer}
use kapua.Core.Threads.{none_yet, looping, free, joining}
use kapua.UdpNetwork.Threads.{
  Machine, Run, here, next, starts, works, enters, stops, Quiet, IsPatient, stop_leads_to_Quiet,
}
use kapua.UdpNetwork.Threads.Endless.{unstarted, endless, second_start_endless}
use kapua.UdpNetwork.Send.{counted}
use kapua.UdpNetwork.Transitions.{Step}
use kapua.UdpNetwork.Meeting.Carrier.{Proper}
use kapua.UdpNetwork.Unread.{reply_outcome}

-- The receiver with `memory` in its packet, and the peer as given.
abbrev receiver : List ℕ → Node → Receiver
receiver memory n = record {
  net = with_peer n;
  memory = memory;
  from_addr = local_host;
  node = none;
}

knows : (memory : List ℕ) (n : Node) → Knows (receiver memory n) 1 n
unfolding find find_addr insert_addr addr_eq
knows memory n = record { free = refl; listed = refl; lives = refl }

sample_valid :
    (check_magic_valid (of_bytes (to_bytes sample)) ≡ true)
    × (check_version_valid false (of_bytes (to_bytes sample)) ≡ true)
unfolding check_magic_valid check_version_valid of_bytes to_bytes fields_then le_bytes from_le
sample_valid = (refl, refl)

-- `recvfrom` failed, and the packet from before is still there.
failed_receive_repeats_run :
    receive toy sys failed (receiver (to_bytes sample) secure)
    ≡ ok (true, record (unlocked (receiver (to_bytes sample) secure)) { node = some 1 })
unfolding of_bytes to_bytes fields_then le_bytes from_le
failed_receive_repeats_run =
    failed_receive_repeats toy sys 1 secure (receiver (to_bytes sample) secure)
      (knows (to_bytes sample) secure) sample_valid.0 sample_valid.1 (omega arith)

receive-Accepted_example :
    Accepted (record (unlocked (receiver (to_bytes sample) secure)) { node = some 1 })
receive-Accepted_example =
    (receive-Accepted toy sys failed (receiver (to_bytes sample) secure)
      (record (unlocked (receiver (to_bytes sample) secure)) { node = some 1 })
      failed_receive_repeats_run).1

-- A packet with a wrong magic number, from an address that is not known.
abbrev unmagic : List ℕ
unmagic = take 49 (to_bytes (record sample { magic = 0 ∷ 0 ∷ 0 ∷ 0 ∷ 0 ∷ [] }))

abbrev blank : List ℕ
blank = replicate 1450 0

unknown_sender_accepted_run :
    (r' : Receiver) × (receive toy sys (datagram elsewhere unmagic) (receiver blank secure)
      ≡ ok (true, r'))
    × (r'.node ≡ some 2)
    × (find_addr elsewhere r'.net.core.nodes_by_addr ≡ some 2)
unfolding check_version_valid of_bytes to_bytes fields_then le_bytes from_le find_addr insert_addr
    addr_eq
unknown_sender_accepted_run =
    unknown_sender_accepted toy sys elsewhere unmagic (receiver blank secure) toy-IsCbc
      (omega arith) (omega arith) refl refl refl (omega arith)

arrives : Arrives toy session_key sys.iv sent_update sent_final sample (receiver blank secure)
unfolding check_magic_valid check_version_valid of_bytes to_bytes fields_then le_bytes
arrives = record {
  encrypts = sample_Encrypts;
  vector = refl;
  wire = sample-IsWire;
  magic = refl;
  short = omega arith;
  room = length-replicate {A = ℕ} 1450 0;
  disguised = refl;
  version = refl;
  foreign = omega arith;
}

abbrev sent_message : List ℕ
sent_message = message toy session_key sys.iv sent_update sent_final sample (receiver blank secure)

encrypted_delivery_example :
    (r' : Receiver) × (receive toy sys (datagram local_host sent_message) (receiver blank secure)
      ≡ ok (true, r'))
    × (r'.node ≡ some 1)
    × (of_bytes r'.memory ≡ record sample {
      bytes = overwrite (take 3 sample.bytes) (drop header_size (overwrite sent_message blank));
    })
encrypted_delivery_example =
    encrypted_delivery toy sys session_key sys.iv sent_update sent_final sample local_host 1 secure
      (receiver blank secure) toy-IsCbc toy-Inverts arrives (knows blank secure) refl refl

abbrev idle_service : Service
idle_service = record {
  is_running = false;
  port = 11860;
  socket = none;
  closed = [];
  has_thread = true;
}

-- `bind` fails.
enter_main_loop-shutdown_example :
    (shutdown
      (enter_main_loop
        (record { socket = some 3; binds = false; broadcasts = true })
        idle_service).1).closed
    ≡ 3 ∷ []
enter_main_loop-shutdown_example =
    (enter_main_loop-shutdown (some 3) false true idle_service refl).2

abbrev every_second : Discovery
every_second = record { enable = true; interval_ms = 1000 }

a_discovery :
    discover toy sys every_second 11860 5000 3000 net
    ≡ ok (5000, record net { sent = (broadcast_address 11860, discovery_bytes sys net) ∷ [] })
unfolding to_bytes fields_then le_bytes new_to
a_discovery = discover_lem toy sys every_second 11860 5000 3000 46 net refl refl

-- A start, a loop, and a stop that waits.
abbrev calls : SocketCalls
calls = record { socket = some 3; binds = true; broadcasts = true }

abbrev waiting_service : Service
waiting_service = record {
  is_running = false;
  port = 80;
  socket = some 3;
  closed = [];
  has_thread = true;
}

abbrev idle_machine : Machine
idle_machine = record { service = idle_service; worker = none_yet; lost = []; owner = free }

abbrev waiting_machine : Machine
waiting_machine = record {
  service = waiting_service;
  worker = looping;
  lost = none_yet ∷ [];
  owner = joining;
}

comes_to_wait : Run idle_machine waiting_machine
unfolding start stop enter_main_loop listen
comes_to_wait = next (starts {t = record idle_service { port = 80 }} 80 refl) (
    next (works (enters {t = record waiting_service { is_running = true }} calls refl))
      (next (stops refl) here))

patiently : IsPatient comes_to_wait
unfolding comes_to_wait
patiently = (tt, (tt, (tt, tt)))

stop_leads_to_Quiet_example : (k : Machine) × Run waiting_machine k × Quiet k
stop_leads_to_Quiet_example =
    stop_leads_to_Quiet idle_service waiting_machine refl refl comes_to_wait patiently refl

second_start_endless_example :
    Run (unstarted idle_service) (endless 80 3 4 idle_service)
    × ((endless 80 3 4 idle_service).owner ≡ joining)
    × ((endless 80 3 4 idle_service).worker ≡ looping)
second_start_endless_example =
    second_start_endless idle_service 11860 80 3 4 (endless 80 3 4 idle_service) refl here

-- A reply with two bytes that are no key, to a node that waits for one.
abbrev no_key : Packet
no_key = record key_reply { size = 2 }

no_key-Proper : Proper 7 no_key
unfolding check_version_valid
no_key-Proper = record {
  wire = record {
    magic = refl;
    major = omega arith;
    minor = omega arith;
    patch = omega arith;
    type_id = omega arith;
    packet_id = omega arith;
    from_id = omega arith;
    to_id = omega arith;
    ttl = omega arith;
    request_id = omega arith;
    size = omega arith;
    bytes = omega (arith, length-replicate {A = ℕ} 1403 0);
  };
  magic = refl;
  version = refl;
  size = omega arith;
  foreign = omega arith;
}

abbrev bad_round : Round
bad_round = record {
  incoming = datagram local_host (counted no_key);
  receiving = sys;
  processing = sys;
  sending = sys;
  now = 1;
}

reply_outcome_example :
    (after : Receiver) × (m : Node) × (find 1 after.net.core.heap ≡ some m)
    × Step public_key_reply waiting.state m.state
    × (main_loop toy every_second 11860 (bad_round ∷ []) 0 (receiver blank waiting)
        ≡ throws runtime_error)
unfolding find find_addr insert_addr addr_eq type_of
reply_outcome_example =
    reply_outcome toy every_second 11860 bad_round [] 0 local_host 1 waiting no_key
      (receiver blank waiting) toy-IsSized refl refl refl no_key-Proper refl refl refl
      (length-replicate {A = ℕ} 1450 0)
