-- ===== src/UdpNetwork/Delivery.antt =====
-- src/UDPNetwork.cpp: `_receive` at a node that is known: what an encrypted packet comes to, and what a
-- failed `recvfrom` does.
use kapua.Prelude.{
  ℕ, ◌+◌, ◌≤◌, ◌≡◌, ◌≢◌, refl, sym, ap, ◌∙◌, true, false, List, ◌++◌, Option, some, ◌==◌, length,
  take, drop, arith, take_long, length-take,
}
use kapua.Prelude.Bytes.{overwrite, take-overwrite, length-overwrite}
use kapua.Prelude.Maps.{find}
use kapua.Prelude.Results.{ok}
use kapua.OpenSsl.{OpenSsl, IsCbc, Inverts}
use kapua.Address.{SockaddrHashable, find_addr}
use kapua.Node.{Node, is_encrypting}
use kapua.Core.{deref}
use kapua.Protocol.{
  Packet, to_bytes, of_bytes, check_magic_valid, check_version_valid, magic_number, header_size,
  max_packet_size,
}
use kapua.Protocol.Wire.{IsWire, of_bytes-overwrite, length-to_bytes}
use kapua.UdpNetwork.State.{System}
use kapua.UdpNetwork.Aes.{aes_decrypt, aes_decrypt-aes_encrypt, aes_encrypt_fits, Encrypts}
use kapua.UdpNetwork.Send.{counted}
use kapua.UdpNetwork.Receive.{failed, datagram, Receiver, open_packet, take_in, receive}
use kapua.UdpNetwork.Reception.{unlocked, find_node_at_lem, header_sized}

-- The receiver's node for the sender.
pub record Knows (r : Receiver) (p : ℕ) (n : Node) : Type 0 where
  pub free : r.net.core.nodes_locked ≡ false
  pub listed : find_addr r.from_addr r.net.core.nodes_by_addr ≡ some p
  pub lives : find p r.net.core.heap ≡ some n

pub take_in_known :
    (o : OpenSsl) (sys : System) (size p : ℕ) (n : Node) (r : Receiver) (memory : List ℕ)
    → Knows r p n
    → open_packet o (some n) r.memory size ≡ ok (true, memory)
    → check_version_valid false (of_bytes memory) ≡ true
    → (of_bytes memory).from_id ≢ r.net.core.my_id
    → take_in o sys size r ≡ ok (true, record (unlocked r) { node = some p; memory = memory })
unfolding take_in deref
take_in_known o sys size p n r memory k opens version foreign =
    let other : ((of_bytes memory).from_id == r.net.core.my_id) ≡ false = differ _ _ foreign in
    let live : deref p (record r.net.core { nodes_locked = false }) ≡ ok n = rw (k.lives, deref) in
    rw (find_node_at_lem r.from_addr r.net.core k.free, k.listed, live, opens, version, other)
  where
    differ : (a b : ℕ) → a ≢ b → (a == b) ≡ false
    differ a b h = ground arith

pub open_packet_clear :
    (o : OpenSsl) (whose : Option Node) (memory : List ℕ) (size : ℕ)
    → check_magic_valid (of_bytes memory) ≡ true
    → open_packet o whose memory size ≡ ok (true, memory)
unfolding open_packet
open_packet_clear o whose memory size h = rw h

-- When `recvfrom` fails, its -1 counts as 65535 bytes and the packet that the memory still holds is
-- handed on as if it had come again: if that is a valid packet of another sender, and the last address
-- is that of a known node, `_receive` returns true with that node, and changes no byte.
pub failed_receive_repeats :
    (o : OpenSsl) (sys : System) (p : ℕ) (n : Node) (r : Receiver)
    → Knows r p n
    → check_magic_valid (of_bytes r.memory) ≡ true
    → check_version_valid false (of_bytes r.memory) ≡ true
    → (of_bytes r.memory).from_id ≢ r.net.core.my_id
    → receive o sys failed r ≡ ok (true, record (unlocked r) { node = some p })
unfolding receive
failed_receive_repeats o sys p n r k magic version foreign =
    take_in_known o sys 65535 p n r r.memory k (open_packet_clear o (some n) r.memory 65535 magic)
      version foreign

open_packet_encrypted :
    (o : OpenSsl) (n : Node) (memory text : List ℕ) (size : ℕ)
    → is_encrypting n.state ≡ true
    → check_magic_valid (of_bytes memory) ≡ false
    → aes_decrypt o max_packet_size n.aes_context_rx memory size ≡ ok (some text)
    → check_magic_valid (of_bytes (overwrite text memory)) ≡ true
    → open_packet o (some n) memory size ≡ ok (true, overwrite text memory)
unfolding open_packet
open_packet_encrypted o n memory text size s m d v = rw (m, s, d, v)

-- What an encrypted packet of a sender needs to be read: 32 random bytes that open the message and do
-- not look like the magic number, OpenSSL's calls, and a packet as `Packet`'s constructors make it, of
-- a compatible version, from another node, with at most 1361 bytes of data.
module _ (o : OpenSsl) (key iv update final : List ℕ) (pkt : Packet) (r : Receiver) where
  -- The message, and the memory when it has come in.
  abbrev pub message : List ℕ
  message = iv ++ (update ++ final)

  pub record Arrives : Type 0 where
    pub encrypts : Encrypts o key iv (counted pkt) update final
    pub vector : length iv ≡ 32
    pub wire : IsWire pkt
    pub magic : pkt.magic ≡ magic_number
    pub short : pkt.size ≤ 1361
    pub room : length r.memory ≡ max_packet_size
    pub disguised : check_magic_valid (of_bytes (overwrite message r.memory)) ≡ false
    pub version : check_version_valid false pkt ≡ true
    pub foreign : pkt.from_id ≢ r.net.core.my_id

pub magic_valid : (p : Packet) → p.magic ≡ magic_number → check_magic_valid p ≡ true
unfolding check_magic_valid
magic_valid p e = rw e

pub same_version :
    (p : Packet) (bs : List ℕ)
    → check_version_valid false (record p { bytes = bs }) ≡ check_version_valid false p
unfolding check_version_valid
same_version p bs = refl

-- What `_receive` does with the message of an encrypted packet.
pub encrypted_received :
    (o : OpenSsl) (sys : System) (key iv update final : List ℕ) (pkt : Packet)
    (addr : SockaddrHashable) (p : ℕ) (n : Node) (r : Receiver)
    → IsCbc o
    → Inverts o
    → Arrives o key iv update final pkt r
    → Knows (record r { from_addr = addr }) p n
    → n.aes_context_rx ≡ key
    → is_encrypting n.state ≡ true
    → let c = message o key iv update final pkt r in
      let after = overwrite (counted pkt) (overwrite c r.memory) in
      (receive o sys (datagram addr c) r
        ≡ ok (
          true,
          record (unlocked (record r { from_addr = addr })) { node = some p; memory = after },
        ))
      × (of_bytes after ≡ record pkt {
        bytes = overwrite (take pkt.size pkt.bytes) (drop header_size (overwrite c r.memory));
      })
unfolding receive
encrypted_received o sys key iv update final pkt addr p n r cbc inverts a k same state =
    let c = message o key iv update final pkt r in
    let memory = overwrite c r.memory in
    let text = counted pkt in
    let exact : length text ≡ header_size + pkt.size = counted_length pkt a.wire a.short in
    let (size, _) = aes_encrypt_fits o key iv text update final cbc a.encrypts a.vector in
    let bound : length c ≤ max_packet_size = omega (arith, exact, a.short, size) in
    let low : header_size ≤ length c = omega (arith, exact, size) in
    let kept : take (length c) memory ≡ c =
      take-overwrite c r.memory (omega (arith, bound, a.room)) in
    let decrypts : aes_decrypt o max_packet_size n.aes_context_rx memory (length c)
        ≡ ok (some text) =
      rw (same, size)
        (aes_decrypt-aes_encrypt o key iv text update final memory cbc inverts a.encrypts a.vector
          (omega (arith, exact, a.short))
          (omega (arith, length-overwrite c r.memory, a.room, bound, size)) (rw (← size) kept)) in
    let arrived = of_bytes-overwrite pkt memory a.wire (length-overwrite c r.memory ∙ a.room) in
    let valid : check_magic_valid (of_bytes (overwrite text memory)) ≡ true =
      ap check_magic_valid arrived ∙ magic_valid _ a.magic in
    let opens = open_packet_encrypted o n memory text (length c) state a.disguised decrypts valid in
    let s = record r { memory = memory; from_addr = addr } in
    let takes =
      take_in_known o sys (length c) p n s (overwrite text memory)
        (record { free = k.free; listed = k.listed; lives = k.lives }) opens
        (ap (check_version_valid false) arrived ∙ same_version pkt _ ∙ a.version)
        (λ e. a.foreign (sym (ap (λ (q : Packet). q.from_id) arrived) ∙ e)) in
    let (some_bytes, enough) = header_sized (length c) low in
    let whole : take max_packet_size c ≡ c = take_long max_packet_size c bound in
    (rw (whole, some_bytes, enough, receive) takes, arrived)
  where
    counted_length :
        (q : Packet) → IsWire q → q.size ≤ 1361 → length (counted q) ≡ header_size + q.size
    counted_length q w h =
        omega (arith, length-take (header_size + q.size) (to_bytes q), (length-to_bytes q 0 w).1)

-- An encrypted packet of at most 1361 bytes of data, with the magic number, a compatible version and another
-- sender's identity than this node's, is received from the address of a node whose receiving key is the
-- sender's sending key, and whose state is CheckEncryption or Connected: `_receive` returns true with that
-- node, and the packet is in memory with its header and its counted data as they were sent, followed by
-- what the memory held. The packet's fields fit their types, OpenSSL's calls that encrypt it succeed with
-- a vector of 32 bytes, the message does not read as a packet with the magic number where it arrives in
-- the memory of 1450 bytes, and the mutex of the registry is free; OpenSSL's cipher is in CBC mode and its
-- decryption inverts its encryption.
pub encrypted_delivery :
    (o : OpenSsl) (sys : System) (key iv update final : List ℕ) (pkt : Packet)
    (addr : SockaddrHashable) (p : ℕ) (n : Node) (r : Receiver)
    → IsCbc o
    → Inverts o
    → Arrives o key iv update final pkt r
    → Knows (record r { from_addr = addr }) p n
    → n.aes_context_rx ≡ key
    → is_encrypting n.state ≡ true
    → let c = message o key iv update final pkt r in
      (r' : Receiver) × (receive o sys (datagram addr c) r ≡ ok (true, r'))
      × (r'.node ≡ some p)
      × (of_bytes r'.memory ≡ record pkt {
        bytes = overwrite (take pkt.size pkt.bytes) (drop header_size (overwrite c r.memory));
      })
encrypted_delivery o sys key iv update final pkt addr p n r cbc inverts a k same state =
    let (takes, arrived) =
      encrypted_received o sys key iv update final pkt addr p n r cbc inverts a k same state in
    (_, takes, refl, arrived)
