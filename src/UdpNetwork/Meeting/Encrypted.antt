-- ===== src/UdpNetwork/Meeting/Encrypted.antt =====
-- src/UDPNetwork.cpp: `_receive` at an encrypted packet from the other node.
use kapua.Prelude.{
  ℕ, zero, suc, ◌≤◌, ◌≡◌, refl, ap, ◌∙◌, true, false, List, [], ◌∷◌, ◌++◌, length, take, drop,
  arith, length-drop,
}
use kapua.Prelude.Bytes.{overwrite, length-overwrite}
use kapua.OpenSsl.{OpenSsl, IsCbc, Inverts}
use kapua.Address.{SockaddrHashable}
use kapua.Node.{Node, is_encrypting}
use kapua.Protocol.{
  Packet, of_bytes, check_magic_valid, magic_number, same_bytes, header_size, max_packet_size,
}
use kapua.UdpNetwork.State.{System, Network, Datagram}
use kapua.UdpNetwork.Aes.{Encrypts}
use kapua.UdpNetwork.Send.{counted}
use kapua.UdpNetwork.Receive.{datagram, Receiver}
use kapua.UdpNetwork.Delivery.{Arrives, encrypted_received}
use kapua.UdpNetwork.Meeting.Carrier.{Proper}
use kapua.UdpNetwork.Meeting.Peer.{Peer, Received}

-- The first bytes of a memory after a write.
take_first :
    (k : ℕ) (bs cs ds : List ℕ)
    → k ≤ length bs
    → k ≤ length ds
    → take k (overwrite (bs ++ cs) ds) ≡ take k bs
take_first zero bs cs ds h l = refl
take_first (suc k) [] cs ds h l = absurd (omega arith)
take_first (suc k) (b ∷ bs) cs [] h l = absurd (omega arith)
take_first (suc k) (b ∷ bs) cs (d ∷ ds) h l = rw (take_first k bs cs ds (omega arith) (omega arith))

-- A vector that does not look like the magic number hides that the message is a packet.
disguised :
    (iv rest memory : List ℕ)
    → length iv ≡ 32
    → length memory ≡ max_packet_size
    → same_bytes (take 5 iv) magic_number ≡ false
    → check_magic_valid (of_bytes (overwrite (iv ++ rest) memory)) ≡ false
unfolding check_magic_valid of_bytes
disguised iv rest memory vector room hidden =
    ap (λ bytes. same_bytes bytes magic_number)
      (take_first 5 iv rest memory (omega arith) (omega arith))
    ∙ hidden

module _ (o : OpenSsl) (sys : System) (base : Network) (addr : SockaddrHashable) where
  pub encrypted_comes :
      (key iv update final : List ℕ) (pkt : Packet) (p : ℕ) (n : Node) (out : List Datagram)
      (r : Receiver)
      → IsCbc o
      → Inverts o
      → Encrypts o key iv (counted pkt) update final
      → length iv ≡ 32
      → same_bytes (take 5 iv) magic_number ≡ false
      → Proper base.core.my_id pkt
      → pkt.size ≤ 1361
      → n.aes_context_rx ≡ key
      → is_encrypting n.state ≡ true
      → Peer base addr p n out r
      → Received o sys base addr (datagram addr (iv ++ (update ++ final))) r p n out pkt
  encrypted_comes key iv update final pkt p n out r cbc inverts encrypts vector hidden proper short
        same state peer =
      let c = iv ++ (update ++ final) in
      let memory = overwrite c r.memory in
      let a : Arrives o key iv update final pkt r = record {
        encrypts = encrypts;
        vector = vector;
        wire = proper.wire;
        magic = proper.magic;
        short = short;
        room = peer.room;
        disguised = disguised iv (update ++ final) r.memory vector peer.room hidden;
        version = proper.version;
        foreign = λ e. proper.foreign (e ∙ peer.my_id);
      } in
      let (takes, reads) =
        encrypted_received o sys key iv update final pkt addr p n r cbc inverts a
          (record { free = peer.free; listed = peer.listed; lives = peer.lives }) same state in
      let still = length-overwrite c r.memory ∙ peer.room in
      (
        _,
        drop header_size memory,
        takes,
        record {
          free = refl;
          listed = peer.listed;
          lives = peer.lives;
          keys = peer.keys;
          my_id = peer.my_id;
          sent = peer.sent;
          room = length-overwrite (counted pkt) memory ∙ still;
        },
        refl,
        reads,
        omega (arith, length-drop header_size memory, still),
      )
