-- ===== src/Protocol/Names.antt =====
-- src/Protocol.hpp: a packet's version and type as text for the log.
use kapua.Prelude.{ℕ, List, ◌++◌}
use kapua.Text.{text, numeral}
use kapua.Protocol.{
  Packet, PacketType, ping, public_key_request, public_key_reply, encryption_context, ready,
  discovery, other,
}

-- The parts of a version are bytes.
unfoldable pub get_version_string : Packet → List ℕ
get_version_string p =
    numeral 10 3 p.version.major
    ++ (text "." ++ (numeral 10 3 p.version.minor ++ (text "." ++ numeral 10 3 p.version.patch)))

unfoldable pub packet_type_to_string : PacketType → List ℕ
packet_type_to_string ping = text "Ping"
packet_type_to_string public_key_request = text "PublicKeyRequest"
packet_type_to_string public_key_reply = text "PublicKeyReply"
packet_type_to_string encryption_context = text "EncryptionContext"
packet_type_to_string ready = text "Ready"
packet_type_to_string discovery = text "Discovery"
packet_type_to_string (other n) = text "Unknown"
