-- ===== src/UdpNetwork/Meeting/Sample.antt =====
-- src/UDPNetwork.cpp: a meeting of the nodes 7 and 9.
use kapua.Prelude.{
  ℕ, zero, suc, ◌≡◌, refl, true, false, Bool, List, [], ◌∷◌, none, some, replicate, arith,
}
use kapua.Prelude.Results.{ok}
use kapua.OpenSsl.Toy.{toy, toy-IsCbc, toy-Inverts, toy_pair}
use kapua.Address.{htons, SockaddrHashable, find_addr}
use kapua.Address.Tests.{local_host}
use kapua.Protocol.Tests.{sample-IsWire}
use kapua.Core.{Core}
use kapua.Core.Tests.{empty}
use kapua.UdpNetwork.State.{System}
use kapua.UdpNetwork.Receive.{Receiver}
use kapua.UdpNetwork.Service.{Discovery}
use kapua.UdpNetwork.Tests.{sys}
use kapua.UdpNetwork.Meeting.{World, IsFair, rest, period, meeting}
use kapua.UdpNetwork.Meeting.Course.{Serves}
use kapua.UdpNetwork.Meeting.Offers.{Party, IsWilling}
use kapua.UdpNetwork.Meeting.Sides.{Apart}
use kapua.UdpNetwork.Meeting.Meets.{Joined, discovery_connects}

abbrev receiver : Core → Receiver
receiver c = record {
  net = record { core = c; sent = [] };
  memory = replicate 1450 0;
  from_addr = local_host;
  node = none;
}

abbrev node_7 : Receiver
node_7 = receiver empty

abbrev node_9 : Receiver
node_9 =
    receiver
      (record empty { my_id = 9; keys = record { public_key = some 21; private_key = some 22 } })

abbrev host_9 : SockaddrHashable
host_9 = record local_host { sin_addr = 33554559 }

-- Another session key for the second node.
abbrev at_7 : ℕ → System
at_7 i = sys

abbrev at_9 : ℕ → System
at_9 i = record sys { session_key = replicate 32 3; seed = 6; now = 2000 }

at_7-Serves : Serves sys
at_7-Serves = record {
  wire = sample-IsWire;
  reliable = λ addr bytes. refl;
  vector = refl;
  hidden = refl;
  key_size = refl;
  room = refl;
}

at_9-Serves : Serves (at_9 0)
at_9-Serves = record {
  wire = sample-IsWire;
  reliable = λ addr bytes. refl;
  vector = refl;
  hidden = refl;
  key_size = refl;
  room = refl;
}

toy-IsWilling : IsWilling toy
toy-IsWilling = record {
  encrypts = λ key iv text h k.
      (_, _, record { context = refl; initialised = refl; updated = refl; finished = refl });
}

abbrev party_7 : Party toy node_7.net
party_7 = record {
  own = record {
    public = 11;
    der = 11 ∷ [];
    key = refl;
    sized = refl;
    encoded = refl;
    encodes = omega arith;
    fits = omega arith;
  };
  private = 12;
  pair = toy_pair 11 12;
  key = refl;
  legible = refl;
  id_fits = omega arith;
  usable = refl;
  initialises = refl;
  size = 32;
  wrapped_size = refl;
  size_fits = omega arith;
  encrypts = λ seed key h. (key, refl, omega (arith, h));
}

abbrev party_9 : Party toy node_9.net
party_9 = record {
  own = record {
    public = 21;
    der = 21 ∷ [];
    key = refl;
    sized = refl;
    encoded = refl;
    encodes = omega arith;
    fits = omega arith;
  };
  private = 22;
  pair = toy_pair 21 22;
  key = refl;
  legible = refl;
  id_fits = omega arith;
  usable = refl;
  initialises = refl;
  size = 32;
  wrapped_size = refl;
  size_fits = omega arith;
  encrypts = λ seed key h. (key, refl, omega (arith, h));
}

apart : Apart toy node_7 node_9 local_host host_9 sys at_7 at_7 at_9 at_9
unfolding find_addr
apart = record {
  party_a = party_7;
  party_b = party_9;
  differ = λ e. absurd (omega (arith, e));
  alone_a = record {
    free = refl;
    unlisted = refl;
    keys = refl;
    my_id = refl;
    sent = refl;
    room = refl;
  };
  alone_b = record {
    free = refl;
    unlisted = refl;
    keys = refl;
    my_id = refl;
    sent = refl;
    room = refl;
  };
  announces = at_7-Serves;
  receives_a = λ i. at_7-Serves;
  serves_a = λ i. at_7-Serves;
  receives_b = λ i. at_9-Serves;
  serves_b = λ i. at_9-Serves;
  told_a = omega arith;
  told_b = omega arith;
}

abbrev every_second : Discovery
every_second = record { enable = true; interval_ms = 1000 }

-- The second node has two turns, and then the first one, `n` times.
abbrev turns : ℕ → List Bool
turns zero = []
turns (suc n) = true ∷ true ∷ false ∷ turns n

turns-IsFair : (n : ℕ) → IsFair n (turns n)
turns-IsFair zero = rest []
turns-IsFair (suc n) = period n (true ∷ true ∷ false ∷ []) (turns n) refl refl (turns-IsFair n)

discovery_connects_example :
    (w : World) × (meeting toy local_host host_9 at_7 at_7 at_9 at_9 sys every_second 11860 5000
        3000
        (turns 9)
        node_7
        node_9
      ≡ ok w)
    × Joined local_host host_9 w
unfolding htons
discovery_connects_example =
    discovery_connects toy node_7 node_9 local_host host_9 sys at_7 at_7 at_9 at_9 every_second
      11860 5000 3000 (turns 9) toy-IsCbc toy-Inverts toy-IsWilling apart refl refl (omega arith)
      (turns-IsFair 9)
