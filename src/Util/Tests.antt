-- ===== src/Util/Tests.antt =====
-- src/Util.hpp and src/Protocol.hpp: text for the log, at some values.
use kapua.Prelude.{◌≡◌, refl, [], ◌∷◌}
use kapua.Text.{text, numeral, zero_padded, digit_char}
use kapua.Address.{of_host, htons, htonl}
use kapua.Protocol.{Packet, new_packet, type_of}
use kapua.Protocol.Names.{get_version_string, packet_type_to_string}
use kapua.Util.{to_hex, sockaddr_to_string}

hex_text : to_hex (0 ∷ 10 ∷ 255 ∷ []) ≡ text "000aff"
unfolding to_hex numeral zero_padded digit_char
hex_text = refl

address_text :
    sockaddr_to_string (λ a. text "127.0.0.1") (of_host 11860 0x7F00_0001) ≡ text "127.0.0.1:11860"
unfolding sockaddr_to_string numeral digit_char of_host htons htonl
address_text = refl

version_text : (raw : Packet) → get_version_string (new_packet raw) ≡ text "0.0.1"
unfolding get_version_string new_packet numeral digit_char
version_text raw = refl

type_text : packet_type_to_string (type_of 2) ≡ text "PublicKeyReply"
unfolding packet_type_to_string type_of
type_text = refl

no_type_text : packet_type_to_string (type_of 5) ≡ text "Unknown"
unfolding packet_type_to_string type_of
no_type_text = refl
