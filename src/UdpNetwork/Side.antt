-- ===== src/UdpNetwork/Side.antt =====
-- src/UDPNetwork.cpp: a side of the handshake, and the packets that it sends with its keys.
use kapua.Prelude.{◌≤◌, ℕ, ◌≡◌, refl, true, false, List, ◌++◌, some, length, arith, ltb}
use kapua.Prelude.Bytes.{overwrite, take-overwrite, length-overwrite}
use kapua.Prelude.Maps.{find}
use kapua.Prelude.Results.{ok}
use kapua.OpenSsl.{OpenSsl, IsPair}
use kapua.Node.{Node}
use kapua.Protocol.{
  Packet, PacketType, public_key_request, public_key_reply, new_to, read_public_key, max_data_size,
}
use kapua.Rsa.{aes_key_size, encrypt_aes_context, decrypt_aes_context}
use kapua.Rsa.SessionKey.{encrypted_within, decrypt_aes_context-encrypt_aes_context}
use kapua.UdpNetwork.State.{System, Network, Datagram}
use kapua.UdpNetwork.Process.{session_packet}
use kapua.UdpNetwork.Orderly.{HasOwnKey}
use kapua.UdpNetwork.Writes.{handed}

-- A side of a handshake: its node for the other side is there, it has a pair of keys of its own, and
-- what the system gives it with each packet lets it make a session key and encrypt it.
pub record Side (o : OpenSsl) (s : PacketType → System) (p : ℕ) (net : Network) : Type 0 where
  pub node : Node
  pub there : find p net.core.heap ≡ some node
  pub own : HasOwnKey o net
  pub private : ℕ
  pub pair : IsPair o own.public private
  pub key : net.core.keys.private_key ≡ some private
  pub legible : o.d2i own.der ≡ some own.public
  pub room : length node.aes_context_rx ≡ aes_key_size
  pub key_size : length (s public_key_reply).session_key ≡ aes_key_size
  pub key_data : length (s public_key_request).raw_packet.bytes ≡ max_data_size
  pub secret_data : length (s public_key_reply).raw_packet.bytes ≡ max_data_size

module _ (o : OpenSsl) (s : PacketType → System) (p : ℕ) (net : Network)
    (side : Side o s p net) where
  -- The packet with this side's public key, and the one with its session key.
  abbrev pub key_packet : Packet
  key_packet =
      let raw =
        new_to public_key_reply net.core.my_id side.node.id (s public_key_request).raw_packet in
      record raw { size = length side.own.der; bytes = overwrite side.own.der raw.bytes }

  abbrev pub secret_packet : List ℕ → Packet
  secret_packet secret = session_packet (s public_key_reply) net.core.my_id side.node.id secret

  -- What was sent since: a packet with the public key, one with an encrypted session key, and whatever
  -- else.
  abbrev pub Sends : Network → List ℕ → Type 0
  Sends after secret =
      (rest : List Datagram) × (after.sent
        ≡ net.sent
          ++ (handed (s public_key_request) side.node.addr key_packet
              ++ (handed (s public_key_reply) side.node.addr (secret_packet secret) ++ rest)))

  pub key_packet_legible : read_public_key o key_packet ≡ ok side.own.public
  unfolding read_public_key new_to
  key_packet_legible =
      let der = side.own.der in
      let within : ltb max_data_size (length der) ≡ false = ground (arith, side.own.fits) in
      let begins =
        take-overwrite der (s public_key_request).raw_packet.bytes
          (omega (arith, side.own.fits, side.key_data)) in
      rw (within, begins, side.legible, read_public_key) refl

  -- The session key of this side, in the packet with it, is opened by the other.
  pub secret_packet_opens :
      (public private seed : ℕ) (secret old : List ℕ) (size : ℕ) (pair : IsPair o public private)
      → pair.key_size ≤ size
      → length old ≡ aes_key_size
      → encrypt_aes_context o seed (s public_key_reply).session_key (some public) max_data_size
        ≡ ok (some secret)
      → decrypt_aes_context o old
          (some private)
          size
          (secret_packet secret).bytes
          (secret_packet secret).size
        ≡ ok (true, (s public_key_reply).session_key)
  unfolding session_packet new_to
  secret_packet_opens public private seed secret old size pair told room encrypts =
      let key = (s public_key_reply).session_key in
      let bytes = (s public_key_reply).raw_packet.bytes in
      let short = encrypted_within o seed public max_data_size key secret encrypts in
      decrypt_aes_context-encrypt_aes_context o seed public private max_data_size size key old
        secret (overwrite secret bytes) pair told side.key_size room encrypts
        (omega (arith, side.secret_data, short.1, length-overwrite secret bytes))
        (take-overwrite secret bytes (omega (arith, side.secret_data, short.1)))
