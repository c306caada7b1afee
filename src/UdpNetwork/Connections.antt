-- ===== src/UdpNetwork/Connections.antt =====
-- src/UDPNetwork.cpp: a run of the whole handshake, between the nodes 7 and 9.
use kapua.Prelude.{ℕ, ◌≡◌, refl, List, some, [], ◌∷◌, replicate, arith}
use kapua.Prelude.Maps.{find, assign}
use kapua.Prelude.Results.{ok}
use kapua.OpenSsl.Toy.{toy, toy-IsCbc, toy_pair}
use kapua.Address.Tests.{local_host}
use kapua.Node.{Node, connected, new_node_at}
use kapua.Protocol.{Packet, PacketType, type_of, max_data_size}
use kapua.Protocol.Tests.{sample, sample-IsWire}
use kapua.Rsa.{encrypt_aes_context}
use kapua.Rsa.Tests.{session_key}
use kapua.Core.Registry.{added}
use kapua.Core.Tests.{raw, empty}
use kapua.UdpNetwork.State.{System, Network}
use kapua.UdpNetwork.Handshake.{process_all}
use kapua.UdpNetwork.Side.{Side, key_packet, secret_packet, Sends}
use kapua.UdpNetwork.Connection.{four, handshake_completes}
use kapua.UdpNetwork.Tests.{sys}

abbrev node_7 : Network
node_7 = record { core = added raw 9 local_host empty; sent = [] }

-- The other node, with the private key 22 of the public key 21.
abbrev node_9 : Network
node_9 = record {
  core =
      added raw 7 local_host
        (record empty { my_id = 9; keys = record { public_key = some 21; private_key = some 22 } });
  sent = [];
}

abbrev other_key : List ℕ
other_key = replicate 32 3

abbrev at_7 : PacketType → System
at_7 t = sys

abbrev at_9 : PacketType → System
at_9 t = record sys { session_key = other_key; seed = 6; now = 2000 }

abbrev request : Packet
request = record sample { type_id = 1 }

there_7 : find 1 node_7.core.heap ≡ some (record raw { id = 9; addr = local_host })
unfolding find assign new_node_at
there_7 = refl

abbrev side_7 : Side toy at_7 1 node_7
side_7 = record {
  node = record raw { id = 9; addr = local_host };
  there = there_7;
  own = record {
    public = 11;
    der = 11 ∷ [];
    key = refl;
    sized = refl;
    encoded = refl;
    encodes = omega arith;
    fits = omega arith;
  };
  private = 12;
  pair = toy_pair 11 12;
  key = refl;
  legible = refl;
  room = refl;
  key_size = refl;
  key_data = sample-IsWire.bytes;
  secret_data = sample-IsWire.bytes;
}

there_9 : find 1 node_9.core.heap ≡ some (record raw { id = 7; addr = local_host })
unfolding find assign new_node_at
there_9 = refl

abbrev side_9 : Side toy at_9 1 node_9
side_9 = record {
  node = record raw { id = 7; addr = local_host };
  there = there_9;
  own = record {
    public = 21;
    der = 21 ∷ [];
    key = refl;
    sized = refl;
    encoded = refl;
    encodes = omega arith;
    fits = omega arith;
  };
  private = 22;
  pair = toy_pair 21 22;
  key = refl;
  legible = refl;
  room = refl;
  key_size = refl;
  key_data = sample-IsWire.bytes;
  secret_data = sample-IsWire.bytes;
}

key_7_encrypted :
    encrypt_aes_context toy 5 session_key (some 21) max_data_size ≡ ok (some session_key)
unfolding encrypt_aes_context
key_7_encrypted = refl

key_9_encrypted : encrypt_aes_context toy 6 other_key (some 11) max_data_size ≡ ok (some other_key)
unfolding encrypt_aes_context
key_9_encrypted = refl

handshake_completes_example :
    (a' : Network) × (b' : Network) × (m : Node) × (k : Node) × (process_all toy 1
        (four at_7 request
          (key_packet toy at_9 1 node_9 side_9)
          (secret_packet toy at_9 1 node_9 side_9 other_key)
          sample)
        node_7
      ≡ ok a')
    × (process_all toy 1
          (four at_9 request
            (key_packet toy at_7 1 node_7 side_7)
            (secret_packet toy at_7 1 node_7 side_7 session_key)
            sample)
          node_9
        ≡ ok b')
    × (find 1 a'.core.heap ≡ some m)
    × (find 1 b'.core.heap ≡ some k)
    × (m.state ≡ connected)
    × (k.state ≡ connected)
    × (m.aes_context_tx ≡ k.aes_context_rx)
    × (k.aes_context_tx ≡ m.aes_context_rx)
    × Sends toy at_7 1 node_7 side_7 a' session_key
    × Sends toy at_9 1 node_9 side_9 b' other_key
unfolding type_of
handshake_completes_example =
    handshake_completes toy at_7 at_9 1 1 node_7 node_9 side_7 side_9 request sample request sample
      session_key other_key toy-IsCbc refl refl refl refl (omega arith) (omega arith)
      key_7_encrypted key_9_encrypted
