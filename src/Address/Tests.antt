-- ===== src/Address/Tests.antt =====
-- src/SockaddrHashable.hpp: addresses, and the theorem on them at two that are equal.
use kapua.Prelude.{◌≡◌, refl, none, some, []}
use kapua.Address.{
  SockaddrHashable, of_host, htons, htonl, addr_eq, hash_address, find_addr, insert_addr,
  erase_addr, hash_address-addr_eq,
}

-- 127.0.0.1:11860, and the same with another family.
abbrev pub local_host : SockaddrHashable
local_host = record { sin_family = 2; sin_port = 21550; sin_addr = 16777343 }

abbrev other_family : SockaddrHashable
other_family = record local_host { sin_family = 0 }

abbrev pub elsewhere : SockaddrHashable
elsewhere = record local_host { sin_port = 21551 }

local_host_lem : of_host 11860 0x7F00_0001 ≡ local_host
unfolding of_host htons htonl
local_host_lem = refl

map_runs :
    (find_addr other_family (insert_addr local_host 4 []) ≡ some 4)
    × (insert_addr other_family 5 (insert_addr local_host 4 []) ≡ insert_addr local_host 4 [])
    × (find_addr elsewhere (erase_addr elsewhere (insert_addr elsewhere 4 [])) ≡ none)
unfolding find_addr insert_addr erase_addr
map_runs = (refl, refl, refl)

hash_address-addr_eq_run :
    hash_address (λ n. n) (λ n. n) local_host ≡ hash_address (λ n. n) (λ n. n) other_family
unfolding addr_eq
hash_address-addr_eq_run = (hash_address-addr_eq (λ n. n) (λ n. n) local_host other_family refl).2
