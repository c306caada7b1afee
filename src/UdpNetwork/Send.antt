-- ===== src/UdpNetwork/Send.antt =====
-- src/UDPNetwork.cpp: `_send`, and what its result says.
use kapua.Prelude.{
  ℕ, ◌+◌, ◌≤◌, ◌≡◌, refl, ◌≢◌, Bool, true, false, not, List, [], ◌∷◌, ◌++◌, Option, none, some, ltb,
  leb, ◌==◌, if◌then◌else◌, length, take, arith, length-take, Bool-cases, inl, inr,
}
use kapua.Prelude.Results.{Result, ok, undefined, past_end, IsOk, ◌>>=◌}
use kapua.OpenSsl.{OpenSsl, IsCbc}
use kapua.Address.{SockaddrHashable}
use kapua.Node.{Node, is_encrypting}
use kapua.Protocol.{Packet, to_bytes, header_size, max_packet_size, max_data_size}
use kapua.Protocol.Wire.{IsWire, length-to_bytes}
use kapua.UdpNetwork.State.{System, Datagram}
use kapua.UdpNetwork.Aes.{
  aes_encrypt, aes_encrypt_fits, aes_encrypt_fits_any, Encrypts, aes_encrypt-IsOk,
  encrypted_size-gt,
}

-- `sendto(…) == KAPUA_HEADER_SIZE + pkt->length`, and the datagrams that went out.
unfoldable pub transmit : System → SockaddrHashable → ℕ → List ℕ → Bool × List Datagram
transmit sys addr expected bytes = elim (sys.sendto addr bytes) [
  | none ↦ (false, [])
  | some n ↦ (n == expected, (addr, bytes) ∷ [])
]

unfoldable pub send_encrypted :
    System → SockaddrHashable → ℕ → Option (List ℕ) → Bool × List Datagram
unfolding transmit
send_encrypted sys addr expected none = (false, [])
send_encrypted sys addr expected (some bytes) = transmit sys addr expected bytes

-- A packet in the clear: `sendto` reads the packet's first 46 + `length` bytes.
unfoldable pub send_clear : System → SockaddrHashable → Packet → Result (Bool × List Datagram)
unfolding transmit
send_clear sys addr pkt =
    let size = header_size + pkt.size in
    if ltb max_packet_size size
    then undefined past_end
    else ok (transmit sys addr size (take size (to_bytes pkt)))

-- The node is `none` for a null pointer. The encryption of a packet whose length goes beyond the data
-- array writes past the end of `crypt_buffer`.
unfoldable pub send :
    OpenSsl → System → Option Node → Packet → SockaddrHashable → Result (Bool × List Datagram)
unfolding send_encrypted send_clear
send o sys node pkt addr =
    let size = header_size + pkt.size in
    elim node [
      | none ↦ send_clear sys addr pkt
      | some n ↦
          if is_encrypting n.state
          then (do
            bytes ← aes_encrypt o max_packet_size n.aes_context_tx sys.iv (take size (to_bytes pkt))
            ok (send_encrypted sys addr size bytes))
          else send_clear sys addr pkt
    ]

-- `sendto` on a datagram socket sends the whole message or nothing.
abbrev pub IsDatagram : System → Type 0
IsDatagram sys =
    (addr : SockaddrHashable) (bytes : List ℕ) (n : ℕ)
    → sys.sendto addr bytes ≡ some n
    → n ≡ length bytes

beyond_packet : (n : ℕ) → ltb max_packet_size (header_size + n) ≡ not (leb n max_data_size)
beyond_packet n = ground arith

-- To a null node, or to a node whose state comes before CheckEncryption, a packet goes out as its
-- header and its counted data, in the clear; the result is true exactly when `sendto` sent as many
-- bytes as those are. A length beyond the data array makes the call read past the packet.
pub send_plain :
    (o : OpenSsl) (sys : System) (node : Option Node) (pkt : Packet) (addr : SockaddrHashable)
    → ((n : Node) → node ≡ some n → is_encrypting n.state ≡ false)
    → send o sys node pkt addr ≡ (
        if leb pkt.size max_data_size
        then ok (
            transmit sys addr
              (header_size + pkt.size)
              (take (header_size + pkt.size) (to_bytes pkt)))
        else undefined past_end)
unfolding send
send_plain o sys none pkt addr h = elim (Bool-cases (leb pkt.size max_data_size)) [
  | inl l ↦ rw (beyond_packet pkt.size, l, send)
  | inr l ↦ rw (beyond_packet pkt.size, l, send)
]
send_plain o sys (some n) pkt addr h = elim (Bool-cases (leb pkt.size max_data_size)) [
  | inl l ↦ rw (beyond_packet pkt.size, l, h n refl, send)
  | inr l ↦ rw (beyond_packet pkt.size, l, h n refl, send)
]

pub send_plain-IsOk :
    (o : OpenSsl) (sys : System) (node : Option Node) (pkt : Packet) (addr : SockaddrHashable)
    → ((n : Node) → node ≡ some n → is_encrypting n.state ≡ false)
    → pkt.size ≤ max_data_size
    → IsOk (send o sys node pkt addr)
send_plain-IsOk o sys node pkt addr h short =
    let fits : leb pkt.size max_data_size ≡ true = ground (arith, short) in
    (
      transmit sys addr (header_size + pkt.size) (take (header_size + pkt.size) (to_bytes pkt)),
      rw (send_plain o sys node pkt addr h, fits),
    )

-- The text that `send` encrypts.
abbrev pub counted : Packet → List ℕ
counted pkt = take (header_size + pkt.size) (to_bytes pkt)

-- A packet with at most 1361 bytes of data is sent, or fails to be, without an access past any buffer,
-- whatever the state of the node, whichever of OpenSSL's calls fail and whatever the system answers:
-- provided that the cipher is in CBC mode, so that the calls for encryption that succeed write the whole
-- blocks of the text and one block more.
pub send-IsOk :
    (o : OpenSsl) (sys : System) (node : Option Node) (pkt : Packet) (addr : SockaddrHashable)
    → IsCbc o
    → pkt.size ≤ 1361
    → IsOk (send o sys node pkt addr)
unfolding send
send-IsOk o sys none pkt addr cbc h =
    (transmit sys addr (header_size + pkt.size) (counted pkt), ground arith)
send-IsOk o sys (some n) pkt addr cbc h = elim (Bool-cases (is_encrypting n.state)) [
  | inr e ↦ (transmit sys addr (header_size + pkt.size) (counted pkt), ground (arith, e))
  | inl e ↦
      let (bytes, b) =
        aes_encrypt-IsOk o n.aes_context_tx sys.iv (counted pkt) cbc
          (omega (arith, length-take (header_size + pkt.size) (to_bytes pkt))) in
      (send_encrypted sys addr (header_size + pkt.size) bytes, ground (arith, e, b))
]

-- The result for an encrypted packet is false also when the whole message went out: with a cipher in
-- CBC mode, a vector of 32 bytes and a `sendto` that sends whole messages, `send` to a node in
-- CheckEncryption or Connected of a packet with at most 1361 bytes of data, which OpenSSL encrypts and
-- `sendto` accepts, sends the message of vector and encrypted blocks and returns false.
pub send_encrypted_false :
    (o : OpenSsl) (sys : System) (n : Node) (pkt : Packet) (addr : SockaddrHashable)
    (update final : List ℕ) (k : ℕ)
    → IsCbc o
    → IsDatagram sys
    → IsWire pkt
    → is_encrypting n.state ≡ true
    → pkt.size ≤ 1361
    → length sys.iv ≡ 32
    → Encrypts o n.aes_context_tx sys.iv (counted pkt) update final
    → sys.sendto addr (sys.iv ++ (update ++ final)) ≡ some k
    → send o sys (some n) pkt addr ≡ ok (false, (addr, sys.iv ++ (update ++ final)) ∷ [])
unfolding send
send_encrypted_false o sys n pkt addr update final k cbc whole w e h l enc sent =
    let exact : length (counted pkt) ≡ header_size + pkt.size =
      omega
        (arith, length-take (header_size + pkt.size) (to_bytes pkt), (length-to_bytes pkt 0 w).1) in
    let (size, _) =
      aes_encrypt_fits o n.aes_context_tx sys.iv (counted pkt) update final cbc enc l in
    let fits =
      aes_encrypt_fits_any o n.aes_context_tx sys.iv (counted pkt) update final cbc enc
        (omega arith) in
    let longer : k ≢ header_size + pkt.size =
      omega (arith, whole addr _ k sent, encrypted_size-gt (header_size + pkt.size), size) in
    ground (arith, e, fits, sent, longer)
