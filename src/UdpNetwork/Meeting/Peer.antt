-- ===== src/UdpNetwork/Meeting/Peer.antt =====
-- src/UDPNetwork.cpp: `_receive` at a packet in the clear from the other node, which is known.
use kapua.Prelude.{
  ℕ, ◌+◌, ◌≤◌, ◌≡◌, refl, sym, ap, ◌∙◌, true, false, List, none, some, length, take, drop, arith,
  take_long, length-take, length-drop,
}
use kapua.Prelude.Bytes.{overwrite, length-overwrite}
use kapua.Prelude.Maps.{find}
use kapua.Prelude.Results.{ok}
use kapua.OpenSsl.{OpenSsl}
use kapua.Address.{SockaddrHashable, find_addr}
use kapua.Node.{Node}
use kapua.Protocol.{
  Packet, of_bytes, check_magic_valid, check_version_valid, header_size, max_packet_size,
  max_data_size, to_bytes,
}
use kapua.Protocol.Wire.{of_bytes-overwrite, length-to_bytes}
use kapua.UdpNetwork.State.{System, Network, Datagram}
use kapua.UdpNetwork.Send.{counted}
use kapua.UdpNetwork.Receive.{Incoming, datagram, Receiver, receive}
use kapua.UdpNetwork.Reception.{unlocked, header_sized}
use kapua.UdpNetwork.Delivery.{take_in_known, open_packet_clear, magic_valid, same_version}
use kapua.UdpNetwork.Meeting.Carrier.{Proper, arrived}

-- A node that knows the other, at an address, as `n`, and has sent `out`; its keys and its identity are
-- those of `base`.
pub record Peer (base : Network) (addr : SockaddrHashable) (p : ℕ) (n : Node) (out : List Datagram)
    (r : Receiver) : Type 0 where
  pub free : r.net.core.nodes_locked ≡ false
  pub listed : find_addr addr r.net.core.nodes_by_addr ≡ some p
  pub lives : find p r.net.core.heap ≡ some n
  pub keys : r.net.core.keys ≡ base.core.keys
  pub my_id : r.net.core.my_id ≡ base.core.my_id
  pub sent : r.net.sent ≡ out
  pub room : length r.memory ≡ max_packet_size

-- A node that does not know the other yet.
pub record Stranger (base : Network) (addr : SockaddrHashable) (out : List Datagram) (r : Receiver)
    : Type 0 where
  pub free : r.net.core.nodes_locked ≡ false
  pub unlisted : find_addr addr r.net.core.nodes_by_addr ≡ none
  pub keys : r.net.core.keys ≡ base.core.keys
  pub my_id : r.net.core.my_id ≡ base.core.my_id
  pub sent : r.net.sent ≡ out
  pub room : length r.memory ≡ max_packet_size

-- `_receive` hands a packet on, from the other node, which is known then.
abbrev pub Received :
    OpenSsl
    → System
    → Network
    → SockaddrHashable
    → Incoming
    → Receiver
    → ℕ
    → Node
    → List Datagram
    → Packet
    → Type 0
Received o sys base addr incoming r p n out pkt =
    (r' : Receiver) × (rest : List ℕ) × (receive o sys incoming r ≡ ok (true, r'))
    × Peer base addr p n out r'
    × (r'.node ≡ some p)
    × (of_bytes r'.memory ≡ arrived pkt rest)
    × (length rest ≡ max_data_size)

-- The bytes of a packet in the clear, in a memory: they have a header's size and fit, and are read as the
-- packet with other data behind its own.
pub clear_arrives :
    (me : ℕ) (pkt : Packet) (memory : List ℕ)
    → Proper me pkt
    → length memory ≡ max_packet_size
    → (header_size ≤ length (counted pkt))
      × (length (counted pkt) ≤ max_packet_size)
      × (of_bytes (overwrite (counted pkt) memory) ≡ arrived pkt (drop header_size memory))
      × (length (drop header_size memory) ≡ max_data_size)
clear_arrives me pkt memory proper room =
    let exact : length (counted pkt) ≡ header_size + pkt.size = omega (
      arith,
      length-take (header_size + pkt.size) (to_bytes pkt),
      (length-to_bytes pkt 0 proper.wire).1,
      proper.size,
    ) in
    (
      omega (arith, exact),
      omega (arith, exact, proper.size),
      of_bytes-overwrite pkt memory proper.wire room,
      omega (arith, length-drop header_size memory, room),
    )

module _ (o : OpenSsl) (sys : System) (base : Network) (addr : SockaddrHashable) where
  pub clear_comes :
      (pkt : Packet) (p : ℕ) (n : Node) (out : List Datagram) (r : Receiver)
      → Proper base.core.my_id pkt
      → Peer base addr p n out r
      → Received o sys base addr (datagram addr (counted pkt)) r p n out pkt
  unfolding receive
  clear_comes pkt p n out r proper peer =
      let bytes = counted pkt in
      let (low, high, reads, spare) = clear_arrives base.core.my_id pkt r.memory proper peer.room in
      let memory = overwrite bytes r.memory in
      let s = record r { memory = memory; from_addr = addr } in
      let valid : check_magic_valid (of_bytes memory) ≡ true =
        ap check_magic_valid reads ∙ magic_valid _ proper.magic in
      let takes =
        take_in_known o sys (length bytes) p n s memory
          (record { free = peer.free; listed = peer.listed; lives = peer.lives })
          (open_packet_clear o (some n) memory (length bytes) valid)
          (ap (check_version_valid false) reads ∙ same_version pkt _ ∙ proper.version)
          (λ e. proper.foreign (sym (ap (λ (q : Packet). q.from_id) reads) ∙ e ∙ peer.my_id)) in
      let (some_bytes, enough) = header_sized (length bytes) low in
      let whole : take max_packet_size bytes ≡ bytes = take_long max_packet_size bytes high in
      (
        record (unlocked s) { node = some p; memory = memory },
        drop header_size r.memory,
        rw (whole, some_bytes, enough, receive) takes,
        record {
          free = refl;
          listed = peer.listed;
          lives = peer.lives;
          keys = peer.keys;
          my_id = peer.my_id;
          sent = peer.sent;
          room = length-overwrite bytes r.memory ∙ peer.room;
        },
        refl,
        reads,
        spare,
      )
