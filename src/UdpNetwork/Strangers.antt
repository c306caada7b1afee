-- ===== src/UdpNetwork/Strangers.antt =====
-- src/UDPNetwork.cpp: `_receive` at a packet from an address that is not known.
use kapua.Prelude.{
  ℕ, ◌≤◌, ◌≡◌, ◌≢◌, refl, true, false, List, ◌++◌, none, some, ◌==◌, length, take, arith, take_long,
}
use kapua.Prelude.Bytes.{overwrite}
use kapua.Prelude.Maps.{find, find-assign}
use kapua.Prelude.Results.{ok}
use kapua.OpenSsl.{OpenSsl, IsCbc}
use kapua.Address.{SockaddrHashable, find_addr, find_addr-insert_addr, addr_eq_refl}
use kapua.Node.{new_node_at}
use kapua.Core.{deref}
use kapua.Core.Registry.{added, add_node_lem}
use kapua.Protocol.{
  Packet, public_key_request, of_bytes, new_to, check_version_valid, header_size, max_packet_size,
}
use kapua.UdpNetwork.State.{System}
use kapua.UdpNetwork.Send.{send-IsOk}
use kapua.UdpNetwork.Receive.{datagram, Receiver, open_packet, greet, take_in, receive}
use kapua.UdpNetwork.Reception.{unlocked, find_node_at_lem, header_sized}

new_to_size :
    (sys : System) (from to : ℕ) → (new_to public_key_request from to sys.raw_packet).size ≤ 1361
unfolding new_to
new_to_size sys from to = omega arith

greet_free :
    (o : OpenSsl) (sys : System) (pkt : Packet) (r : Receiver)
    → IsCbc o
    → r.net.core.nodes_locked ≡ false
    → find_addr r.from_addr r.net.core.nodes_by_addr ≡ none
    → (r' : Receiver) × (greet o sys pkt r ≡ ok r')
      × (r'.node ≡ some r.net.core.next_pointer)
      × (find_addr r.from_addr r'.net.core.nodes_by_addr ≡ some r.net.core.next_pointer)
unfolding greet deref
greet_free o sys pkt r cbc free unknown =
    let c = r.net.core in
    let d = added sys.raw_node pkt.from_id r.from_addr c in
    let n = new_node_at sys.raw_node pkt.from_id r.from_addr in
    let there : find c.next_pointer d.heap ≡ some n =
      ground (arith, find-assign c.next_pointer c.next_pointer n c.heap) in
    let live : deref c.next_pointer d ≡ ok n = rw (there, deref) in
    let ((done, out), sends) =
      send-IsOk o sys (some n) (new_to public_key_request c.my_id pkt.from_id sys.raw_packet)
        r.from_addr cbc (new_to_size sys c.my_id pkt.from_id) in
    (
      record r { net = record { core = d; sent = r.net.sent ++ out }; node = some c.next_pointer },
      rw (add_node_lem sys.raw_node pkt.from_id r.from_addr c free, greet, live, sends),
      refl,
      ground (
        arith,
        addr_eq_refl r.from_addr,
        find_addr-insert_addr r.from_addr r.from_addr c.next_pointer c.nodes_by_addr,
        unknown,
      ),
    )

open_packet_unknown :
    (o : OpenSsl) (memory : List ℕ) (size : ℕ) → open_packet o none memory size ≡ ok (true, memory)
unfolding open_packet
open_packet_unknown o memory size = ground arith

take_in_unknown :
    (o : OpenSsl) (sys : System) (size : ℕ) (r : Receiver)
    → IsCbc o
    → r.net.core.nodes_locked ≡ false
    → find_addr r.from_addr r.net.core.nodes_by_addr ≡ none
    → check_version_valid false (of_bytes r.memory) ≡ true
    → (of_bytes r.memory).from_id ≢ r.net.core.my_id
    → (r' : Receiver) × (take_in o sys size r ≡ ok (true, r'))
      × (r'.node ≡ some r.net.core.next_pointer)
      × (find_addr r.from_addr r'.net.core.nodes_by_addr ≡ some r.net.core.next_pointer)
unfolding take_in
take_in_unknown o sys size r cbc free unknown version foreign =
    let s = record (unlocked r) { node = none } in
    let (r', greets, node, entered) = greet_free o sys (of_bytes r.memory) s cbc refl unknown in
    let other : ((of_bytes r.memory).from_id == r.net.core.my_id) ≡ false =
      ground (arith, foreign) in
    (
      r',
      rw (
        find_node_at_lem r.from_addr r.net.core free,
        unknown,
        open_packet_unknown o r.memory size,
        version,
        other,
        greets,
      ),
      node,
      entered,
    )

-- A datagram of 46 to 1450 bytes from an address that is not in the registry is taken for a packet
-- whatever its magic number, so also when that is wrong: provided its version is compatible, it is not
-- this node's own and the registry is unlocked, `_receive` returns true, with a node for the sender
-- that it has added under that address.
pub unknown_sender_accepted :
    (o : OpenSsl) (sys : System) (addr : SockaddrHashable) (bytes : List ℕ) (r : Receiver)
    → IsCbc o
    → header_size ≤ length bytes
    → length bytes ≤ max_packet_size
    → r.net.core.nodes_locked ≡ false
    → find_addr addr r.net.core.nodes_by_addr ≡ none
    → let pkt = of_bytes (overwrite bytes r.memory) in
      check_version_valid false pkt ≡ true
      → pkt.from_id ≢ r.net.core.my_id
      → (r' : Receiver) × (receive o sys (datagram addr bytes) r ≡ ok (true, r'))
        × (r'.node ≡ some r.net.core.next_pointer)
        × (find_addr addr r'.net.core.nodes_by_addr ≡ some r.net.core.next_pointer)
unfolding receive
unknown_sender_accepted o sys addr bytes r cbc low high free unknown version foreign =
    let whole : take max_packet_size bytes ≡ bytes = take_long max_packet_size bytes high in
    let s = record r { memory = overwrite bytes r.memory; from_addr = addr } in
    let (r', takes, node, entered) =
      take_in_unknown o sys (length bytes) s cbc free unknown version foreign in
    let (some_bytes, enough) = header_sized (length bytes) low in
    (r', rw (whole, some_bytes, enough, receive) takes, node, entered)
