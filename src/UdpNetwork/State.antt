-- ===== src/UdpNetwork/State.antt =====
-- src/UDPNetwork.hpp: what the network's methods work on, and what they take from outside.
use kapua.Prelude.{ℕ, List, Option}
use kapua.Prelude.Maps
use kapua.Address.{SockaddrHashable}
use kapua.Node.{Node}
use kapua.Core.{Core}
use kapua.Protocol.{Packet}

-- What one call takes from the system: random bytes for an initialisation vector and a session key,
-- the padding's seed, the clock, the contents of fresh memory for a packet, a node and a variable, and
-- `sendto`, which gives the number of bytes sent, or `none` for -1.
pub record System : Type 0 where
  pub iv : List ℕ
  pub session_key : List ℕ
  pub seed : ℕ
  pub now : ℕ
  pub raw_packet : Packet
  pub raw_node : Node
  pub raw_len : ℕ
  pub sendto : SockaddrHashable → List ℕ → Option ℕ

abbrev pub Datagram : Type 0
Datagram = SockaddrHashable × List ℕ

-- The core that the network shares, and all that it has sent, the latest last.
pub record Network : Type 0 where
  pub core : Core
  pub sent : List Datagram

-- Writing through a `Node*`.
unfoldable pub put_node : ℕ → Node → Network → Network
put_node p n net = record net { core = record net.core { heap = Maps.assign p n net.core.heap } }
