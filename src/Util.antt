-- ===== src/Util.antt =====
-- src/Util.hpp: text for the log, but for `to_hex64_str`, which Config has.
pub mod Tests
use kapua.Prelude.{ℕ, List, [], ◌∷◌, ◌++◌}
use kapua.Text.{text, numeral, zero_padded}
use kapua.Address.{SockaddrHashable, htons}

-- The bytes of a buffer, fewer than 2 ^ 32 of them, since the counter has 32 bits: two digits each.
unfoldable pub to_hex : List ℕ → List ℕ
to_hex [] = []
to_hex (b ∷ bs) = zero_padded 2 (numeral 16 2 b) ++ to_hex bs

-- `inet_ntoa` is an argument.
unfoldable pub sockaddr_to_string : (ℕ → List ℕ) → SockaddrHashable → List ℕ
sockaddr_to_string inet_ntoa addr =
    inet_ntoa addr.sin_addr ++ (text ":" ++ numeral 10 5 (htons addr.sin_port))
