-- ===== src/UdpNetwork/Rounds.antt =====
-- src/UDPNetwork.cpp: a round of `_main_loop`, and the theorem on its runs there.
use kapua.Prelude.{
  ℕ, ◌≡◌, refl, sym, ap, subst, Bool, true, length, take, arith, length-replicate, false, [], ◌∷◌,
  none,
}
use kapua.Prelude.Bytes.{le_bytes, from_le}
use kapua.Prelude.Maps.{find, assign, insert}
use kapua.Prelude.Results.{Result, ok, IsOk}
use kapua.OpenSsl.Toy.{toy, toy-IsCbc, toy-IsSized, toy-IsBounded}
use kapua.Address.{find_addr, insert_addr, addr_eq, htonl, htons}
use kapua.Address.Tests.{elsewhere}
use kapua.Node.{new_node_at, update_last_contact}
use kapua.Core.{add_node, find_node_at, deref, with_lock}
use kapua.Core.Tests.{empty, empty-Inv}
use kapua.Protocol.{
  new_to, new_broadcast, new_packet, type_of, to_bytes, of_bytes, fields_then, check_magic_valid,
  check_version_valid,
}
use kapua.Protocol.Tests.{sample}
use kapua.UdpNetwork.State.{put_node}
use kapua.UdpNetwork.Send.{send, send_clear, transmit}
use kapua.UdpNetwork.Process.{process_packet, handle, on_ready}
use kapua.UdpNetwork.Receive.{
  idle, failed, datagram, Receiver, recvfrom, open_packet, node_at, greet, greet_unknown, accept,
  after_open, take_in, receive,
}
use kapua.UdpNetwork.Service.{Discovery, Round, take_packet, discover, main_loop}
use kapua.UdpNetwork.Orderly.{HasOwnKey, Orderly}
use kapua.UdpNetwork.Round.{Manageable, main_loop-IsOk}
use kapua.UdpNetwork.Arrival.{Arrives, receive-Arrives}
use kapua.UdpNetwork.Evolution.{Evolves}
use kapua.UdpNetwork.Loop.{main_loop-Evolves}
use kapua.UdpNetwork.Tests.{sys}
use kapua.UdpNetwork.Runs.{result_or}

abbrev quiet : Discovery
quiet = record { enable = false; interval_ms = 1000 }

-- A round that finds the sample packet, from a node that is not known.
abbrev first_contact : Round
first_contact = record {
  incoming = failed;
  receiving = sys;
  processing = sys;
  sending = sys;
  now = 1;
}

abbrev alone : Receiver
alone = record {
  net = record { core = empty; sent = [] };
  memory = to_bytes sample;
  from_addr = elsewhere;
  node = none;
}

abbrev met : ℕ × Receiver
met = result_or (0, alone) (main_loop toy quiet 11860 (first_contact ∷ []) 0 alone)

met_lem : main_loop toy quiet 11860 (first_contact ∷ []) 0 alone ≡ ok met
unfolding main_loop receive take_in find_node_at find_addr check_magic_valid of_bytes to_bytes
    check_version_valid from_le le_bytes add_node deref find assign send new_node_at new_to addr_eq
    htonl htons insert_addr with_lock update_last_contact insert fields_then new_broadcast
    new_packet type_of handle on_ready process_packet accept after_open greet greet_unknown node_at
    open_packet recvfrom send_clear transmit discover take_packet put_node
met_lem = refl

main_loop-Evolves_example : Evolves alone.net.core met.1.net.core
main_loop-Evolves_example =
    main_loop-Evolves toy quiet 11860 (first_contact ∷ []) 0 met.0 alone met.1
      (record { inv = empty-Inv; free = refl }) met_lem

-- The same packet as a datagram, and a round in which nothing comes.
abbrev contact : Round
contact = record first_contact { incoming = datagram elsewhere (to_bytes sample) }

abbrev silence : Round
silence = record first_contact { incoming = idle }

abbrev heard : Bool × Receiver
heard = result_or (false, alone) (receive toy sys contact.incoming alone)

heard_lem :
    (receive toy sys contact.incoming alone ≡ ok (true, heard.1))
    × (of_bytes heard.1.memory ≡ sample)
unfolding receive take_in find_node_at find_addr check_magic_valid of_bytes to_bytes
    check_version_valid from_le le_bytes add_node deref find assign send new_node_at new_to addr_eq
    htonl htons insert_addr with_lock insert fields_then new_broadcast new_packet accept after_open
    greet greet_unknown node_at open_packet recvfrom send_clear transmit
heard_lem = (refl, refl)

sample-Orderly : Orderly toy sys sample
unfolding type_of
sample-Orderly = record {
  array = omega (arith, length-replicate {A = ℕ} 1401 0);
  counted = omega arith;
  readable = λ e. absurd (ground arith);
  no_longer =
      λ key read e. let whole : take 3 sample.bytes ≡ read = cc in omega (arith, ap length whole);
}

at_once :
    (a b : Receiver) (r : Result (Bool × Receiver)) → r ≡ ok (true, a) → r ≡ ok (true, b) → a ≡ b
at_once a b r e f = cc

heard-Orderly :
    (t : Receiver)
    → receive toy sys contact.incoming alone ≡ ok (true, t)
    → Orderly toy sys (of_bytes t.memory)
heard-Orderly t e =
    let same : heard.1 ≡ t = at_once heard.1 t _ heard_lem.0 e in
    subst (λ (r : Receiver). Orderly toy sys (of_bytes r.memory)) same
      (subst (λ p. Orderly toy sys p) (sym (heard_lem.1)) sample-Orderly)

silence-Manageable : (r : Receiver) → Manageable toy silence r
unfolding receive
silence-Manageable r = record {
  heard = tt;
  fresh_key = refl;
  orderly = λ t e. absurd (ground (arith, e));
}

alone_key : HasOwnKey toy alone.net
alone_key = record {
  public = 11;
  der = 11 ∷ [];
  key = refl;
  sized = refl;
  encoded = refl;
  encodes = omega arith;
  fits = omega arith;
}

main_loop-IsOk_example : IsOk (main_loop toy quiet 11860 (contact ∷ silence ∷ []) 0 alone)
unfolding to_bytes fields_then le_bytes
main_loop-IsOk_example =
    main_loop-IsOk toy quiet 11860 (contact ∷ silence ∷ []) 0 alone toy-IsCbc toy-IsSized
      toy-IsBounded (record { inv = empty-Inv; free = refl }) refl alone_key
      (
        record { heard = tt; fresh_key = refl; orderly = heard-Orderly },
        λ t last net e f. (silence-Manageable (record t { net = net }), λ u l n g h. tt),
      )

receive-Arrives_example : Arrives (receive toy sys (datagram elsewhere (to_bytes sample)) alone)
unfolding to_bytes fields_then le_bytes
receive-Arrives_example =
    receive-Arrives toy sys elsewhere (to_bytes sample) alone toy-IsBounded
      (record { inv = empty-Inv; free = refl }) refl
