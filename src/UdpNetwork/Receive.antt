-- ===== src/UdpNetwork/Receive.antt =====
-- src/UDPNetwork.cpp: `_receive`, which turns a datagram into a packet from a node.
use kapua.Prelude.{
  ℕ, Bool, true, false, not, List, ◌++◌, Option, none, some, ltb, ◌==◌, if◌then◌else◌, length, take,
}
use kapua.Prelude.Bytes.{overwrite}
use kapua.Prelude.Results.{Result, ok, ◌>>=◌}
use kapua.OpenSsl.{OpenSsl}
use kapua.Address.{SockaddrHashable}
use kapua.Node.{Node, is_encrypting}
use kapua.Core.{add_node, find_node_at, deref}
use kapua.Protocol.{
  Packet, public_key_request, of_bytes, new_to, check_magic_valid, check_version_valid, header_size,
  max_packet_size,
}
use kapua.UdpNetwork.State.{System, Network}
use kapua.UdpNetwork.Aes.{aes_decrypt}
use kapua.UdpNetwork.Send.{send}

-- What `select` and `recvfrom` give: nothing within the wait, -1, or a datagram.
pub data Incoming : Type 0 where
  idle failed : Incoming
  datagram : SockaddrHashable → List ℕ → Incoming

-- The network with what `_main_loop` hands `_receive`: the memory of the packet, which it uses again
-- and again, the address and the node.
pub record Receiver : Type 0 where
  pub net : Network
  pub memory : List ℕ
  pub from_addr : SockaddrHashable
  pub node : Option ℕ

-- `uint16_t size = recvfrom(…)`, and what it wrote. -1 becomes 65535; a datagram that is larger than
-- the buffer is cut.
unfoldable pub recvfrom : Incoming → Receiver → ℕ × Receiver
recvfrom idle r = (0, r)
recvfrom failed r = (65535, r)
recvfrom (datagram addr bytes) r = (
  length (take max_packet_size bytes),
  record r { memory = overwrite (take max_packet_size bytes) r.memory; from_addr = addr },
)

-- What decryption leaves in the packet's memory, and whether the packet is one.
unfoldable pub decrypted : Option (List ℕ) → List ℕ → Bool × List ℕ
decrypted none memory = (false, memory)
decrypted (some text) memory =
    let after = overwrite text memory in (check_magic_valid (of_bytes after), after)

-- The packet's memory in the clear: `false` where `_receive` gives up.
unfoldable pub open_packet : OpenSsl → Option Node → List ℕ → ℕ → Result (Bool × List ℕ)
unfolding decrypted
open_packet o node memory size =
    if check_magic_valid (of_bytes memory) then ok (true, memory) else elim node [
      | none ↦ ok (true, memory)
      | some n ↦
          if is_encrypting n.state
          then (do
            text ← aes_decrypt o max_packet_size n.aes_context_rx memory size
            ok (decrypted text memory))
          else ok (true, memory)
    ]

-- The node that a pointer leads to.
unfoldable pub node_at : Option ℕ → Network → Result (Option Node)
node_at none net = ok none
node_at (some p) net = do n ← deref p net.core; ok (some n)

-- A packet from an address that is not known: the node is added and asked for its public key.
unfoldable pub greet : OpenSsl → System → Packet → Receiver → Result Receiver
greet o sys pkt r = do
  (p, core) ← add_node sys.raw_node pkt.from_id r.from_addr r.net.core
  n ← deref p core
  (done, out) ←
      send o sys (some n) (new_to public_key_request core.my_id pkt.from_id sys.raw_packet)
        r.from_addr
  ok (record r { net = record { core = core; sent = r.net.sent ++ out }; node = some p })

unfoldable pub greet_unknown : OpenSsl → System → Packet → Receiver → Option ℕ → Result Receiver
unfolding greet
greet_unknown o sys pkt r none = greet o sys pkt r
greet_unknown o sys pkt r (some p) = ok r

-- The checks behind the magic number, and the new node.
unfoldable pub accept : OpenSsl → System → Receiver → Result (Bool × Receiver)
unfolding greet_unknown
accept o sys r =
    let pkt = of_bytes r.memory in
    if not (check_version_valid false pkt)
    then ok (false, r)
    else if pkt.from_id == r.net.core.my_id
    then ok (false, r)
    else do r' ← greet_unknown o sys pkt r r.node; ok (true, r')

unfoldable pub after_open : OpenSsl → System → Receiver → Bool × List ℕ → Result (Bool × Receiver)
unfolding accept
after_open o sys r (false, memory) = ok (false, record r { memory = memory })
after_open o sys r (true, memory) = accept o sys (record r { memory = memory })

-- `_receive` behind the check of the size.
unfoldable pub take_in : OpenSsl → System → ℕ → Receiver → Result (Bool × Receiver)
unfolding node_at open_packet after_open
take_in o sys size r = do
  (found, core) ← find_node_at r.from_addr r.net.core
  let net = record r.net { core = core }
  node ← node_at found net
  opened ← open_packet o node r.memory size
  after_open o sys (record r { net = net; node = found }) opened

unfoldable pub receive : OpenSsl → System → Incoming → Receiver → Result (Bool × Receiver)
unfolding recvfrom
receive o sys idle r = ok (false, r)
receive o sys incoming r =
    let (size, r') = recvfrom incoming r in
    if size == 0
    then ok (false, r')
    else if ltb size header_size
    then ok (false, r')
    else take_in o sys size r'
