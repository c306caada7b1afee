-- ===== src/UdpNetwork/Meeting/Newcomer.antt =====
-- src/UDPNetwork.cpp: `_receive` at a packet from the other node, when that is not known yet.
use kapua.Prelude.{
  ℕ, ◌≡◌, ◌≢◌, refl, sym, ap, subst, ◌∙◌, true, false, List, ◌++◌, none, some, ◌==◌, length, take,
  drop, arith, take_long,
}
use kapua.Prelude.Bytes.{overwrite, length-overwrite}
use kapua.Prelude.Maps.{find, find-assign}
use kapua.Prelude.Results.{ok}
use kapua.OpenSsl.{OpenSsl}
use kapua.Address.{SockaddrHashable, find_addr-insert_addr, addr_eq_refl}
use kapua.Node.{Node, new_node_at}
use kapua.Core.{deref}
use kapua.Core.Registry.{added, add_node_lem}
use kapua.Protocol.{
  Packet, public_key_request, of_bytes, new_to, check_magic_valid, check_version_valid, header_size,
  max_packet_size,
}
use kapua.UdpNetwork.State.{System, Network, Datagram}
use kapua.UdpNetwork.Send.{counted}
use kapua.UdpNetwork.Receive.{datagram, Receiver, greet, take_in, receive}
use kapua.UdpNetwork.Reception.{unlocked, find_node_at_lem, header_sized}
use kapua.UdpNetwork.Delivery.{magic_valid, same_version}
use kapua.UdpNetwork.Writes.{handed, send_short}
use kapua.UdpNetwork.Meeting.Carrier.{Proper}
use kapua.UdpNetwork.Meeting.Peer.{Peer, Stranger, Received, clear_arrives}

module _ (o : OpenSsl) (sys : System) (base : Network) (addr : SockaddrHashable) where
  -- The node that is added for a packet from an address that is not known, and the request to it.
  abbrev pub newcomer : Packet → Node
  newcomer pkt = new_node_at sys.raw_node pkt.from_id addr

  abbrev pub request_to : ℕ → Packet
  request_to to = new_to public_key_request base.core.my_id to sys.raw_packet

  -- The node is added under the address, and asked for its public key.
  greeted :
      (pkt : Packet) (out : List Datagram) (r : Receiver)
      → Stranger base addr out r
      → let p = r.net.core.next_pointer in
        (r' : Receiver) × (greet o sys pkt (record r { from_addr = addr }) ≡ ok r')
        × Peer base addr p (newcomer pkt) (out ++ handed sys addr (request_to pkt.from_id)) r'
        × (r'.node ≡ some p)
        × (r'.memory ≡ r.memory)
  unfolding greet deref new_node_at new_to
  greeted pkt out r stranger =
      let c = r.net.core in
      let p = c.next_pointer in
      let n = new_node_at sys.raw_node pkt.from_id addr in
      let d = added sys.raw_node pkt.from_id addr c in
      let there : find p d.heap ≡ some n = ground (arith, find-assign p p n c.heap) in
      let live : deref p d ≡ ok n = rw (there, deref) refl in
      let request = new_to public_key_request c.my_id pkt.from_id sys.raw_packet in
      let sends = send_short o sys n request refl (omega arith) in
      (
        record r {
          from_addr = addr;
          net = record { core = d; sent = r.net.sent ++ handed sys addr request };
          node = some p;
        },
        rw (add_node_lem sys.raw_node pkt.from_id addr c stranger.free, greet, live, sends) refl,
        record {
          free = refl;
          listed = ground (
            arith,
            addr_eq_refl addr,
            find_addr-insert_addr addr addr p c.nodes_by_addr,
            stranger.unlisted,
          );
          lives = there;
          keys = stranger.keys;
          my_id = stranger.my_id;
          sent = λ i.
              stranger.sent i
              ++ handed sys addr
                  (new_to public_key_request (stranger.my_id i) pkt.from_id sys.raw_packet);
          room = stranger.room;
        },
        refl,
        refl,
      )

  pub stranger_comes :
      (pkt : Packet) (out : List Datagram) (r : Receiver)
      → Proper base.core.my_id pkt
      → Stranger base addr out r
      → (p : ℕ) × Received o sys base addr
          (datagram addr (counted pkt))
          r
          p
          (newcomer pkt)
          (out ++ handed sys addr (request_to pkt.from_id))
          pkt
  unfolding receive take_in
  stranger_comes pkt out r proper stranger =
      let bytes = counted pkt in
      let (low, high, reads, spare) =
        clear_arrives base.core.my_id pkt r.memory proper stranger.room in
      let memory = overwrite bytes r.memory in
      let s = record r { memory = memory; from_addr = addr } in
      let asked = record (unlocked s) { node = none } in
      let (r', greets, peer, node, same) = greeted (of_bytes memory) out asked (record {
        free = refl;
        unlisted = stranger.unlisted;
        keys = stranger.keys;
        my_id = stranger.my_id;
        sent = stranger.sent;
        room = length-overwrite bytes r.memory ∙ stranger.room;
      }) in
      let valid : check_magic_valid (of_bytes memory) ≡ true =
        ap check_magic_valid reads ∙ magic_valid _ proper.magic in
      let version = ap (check_version_valid false) reads ∙ same_version pkt _ ∙ proper.version in
      let sender : (of_bytes memory).from_id ≡ pkt.from_id = ap (λ (q : Packet). q.from_id) reads in
      let other : ((of_bytes memory).from_id == r.net.core.my_id) ≡ false =
        differs _ _ (λ e. proper.foreign (sym sender ∙ e ∙ stranger.my_id)) in
      let (some_bytes, enough) = header_sized (length bytes) low in
      let whole : take max_packet_size bytes ≡ bytes = take_long max_packet_size bytes high in
      (
        r.net.core.next_pointer,
        (
          r',
          drop header_size r.memory,
          rw
              (
                whole,
                some_bytes,
                enough,
                receive,
                find_node_at_lem addr r.net.core stranger.free,
                stranger.unlisted,
                valid,
                version,
                other,
                greets,
              )
              refl,
          subst
              (λ id.
                Peer base addr r.net.core.next_pointer (new_node_at sys.raw_node id addr)
                  (out ++ handed sys addr (request_to id)) r')
              sender peer,
          node,
          ap of_bytes same ∙ reads,
          spare,
        ),
      )
    where
      differs : (a b : ℕ) → a ≢ b → (a == b) ≡ false
      differs a b h = ground (arith, h)
