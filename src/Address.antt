-- ===== src/Address.antt =====
-- src/SockaddrHashable.hpp: IPv4 socket addresses as map keys. Port and address are held in network
-- byte order, as 16- and 32-bit numbers.
pub mod Tests
use Prim.Native.Nat.{bit_xor}
use kapua.Prelude.{
  ℕ, ◌+◌, ◌*◌, ◌/◌, ◌%◌, ◌^◌, ◌<◌, ◌≡◌, refl, ap₂, Bool, true, false, not, ◌&&◌, ◌||◌, ◌==◌, arith,
  if◌then◌else◌, List, [], ◌∷◌, Option, none, some,
}

-- The byte order of a little-endian host turned round.
unfoldable pub htons : ℕ → ℕ
htons n = n % 256 * 256 + n / 256 % 256

unfoldable pub htonl : ℕ → ℕ
unfolding htons
htonl n = htons (n % 65536) * 65536 + htons (n / 65536)

pub record SockaddrHashable : Type 0 where
  pub sin_family : ℕ
  pub sin_port : ℕ
  pub sin_addr : ℕ

abbrev pub af_inet : ℕ
af_inet = 2

unfoldable pub any_address : SockaddrHashable
any_address = record { sin_family = af_inet; sin_port = 0; sin_addr = 0 }

unfoldable pub of_host : ℕ → ℕ → SockaddrHashable
of_host port addr = record { sin_family = af_inet; sin_port = htons port; sin_addr = htonl addr }

unfoldable pub addr_eq : SockaddrHashable → SockaddrHashable → Bool
addr_eq a b = (a.sin_port == b.sin_port) && (a.sin_addr == b.sin_addr)

unfoldable pub addr_ne : SockaddrHashable → SockaddrHashable → Bool
addr_ne a b = not (a.sin_port == b.sin_port) || not (a.sin_addr == b.sin_addr)

abbrev pub u64 : ℕ → ℕ
u64 n = n % 2 ^ 64

-- `hash` is what `std::hash` gives at the value that is combined.
unfoldable pub hash_combine : ℕ → ℕ → ℕ
hash_combine seed hash = bit_xor seed (u64 (hash + 0x9e3779b9 + u64 (seed * 2 ^ 6) + seed / 2 ^ 2))

-- `std::hash<uint32_t>` and `std::hash<uint16_t>` are the implementation's.
unfoldable pub hash_address : (ℕ → ℕ) → (ℕ → ℕ) → SockaddrHashable → ℕ
unfolding hash_combine
hash_address hash32 hash16 a = hash_combine (hash_combine 0 (hash32 a.sin_addr)) (hash16 a.sin_port)

pub addr_eq_parts :
    (a b : SockaddrHashable)
    → addr_eq a b ≡ true
    → (a.sin_port ≡ b.sin_port) × (a.sin_addr ≡ b.sin_addr)
unfolding addr_eq
addr_eq_parts a b e = ground arith

pub addr_eq_refl : (a : SockaddrHashable) → addr_eq a a ≡ true
unfolding addr_eq
addr_eq_refl a = ground arith

-- Addresses that are equal as keys, so with one port and one address whatever their families, are not
-- different by the other operator, are equal the other way round, and have one hash under any standard
-- library: what an unordered map asks of its key type.
pub hash_address-addr_eq :
    (hash32 hash16 : ℕ → ℕ) (a b : SockaddrHashable)
    → addr_eq a b ≡ true
    → (addr_ne a b ≡ false)
      × (addr_eq b a ≡ true)
      × (hash_address hash32 hash16 a ≡ hash_address hash32 hash16 b)
unfolding addr_eq addr_ne hash_address
hash_address-addr_eq hash32 hash16 a b e =
    let (port, addr) = addr_eq_parts a b e in
    (
      ground arith,
      ground arith,
      λ i. hash_combine (hash_combine 0 (hash32 (addr i))) (hash16 (port i)),
    )

-- A port survives the two conversions of byte order.
pub htons-htons : (n : ℕ) → n < 65536 → htons (htons n) ≡ n
unfolding htons
htons-htons n h = omega arith

-- `std::unordered_map<SockaddrHashable, Node*>`, as a list in its iteration order.
abbrev pub AddressMap : Type 0
AddressMap = List (SockaddrHashable × ℕ)

unfoldable pub find_addr : SockaddrHashable → AddressMap → Option ℕ
unfolding addr_eq
find_addr a [] = none
find_addr a ((b, p) ∷ m) = if addr_eq b a then some p else find_addr a m

-- `insert`: an entry that is there stays.
unfoldable pub insert_addr : SockaddrHashable → ℕ → AddressMap → AddressMap
unfolding addr_eq
insert_addr a p [] = (a, p) ∷ []
insert_addr a p ((b, q) ∷ m) = if addr_eq b a then (b, q) ∷ m else (b, q) ∷ insert_addr a p m

unfoldable pub erase_addr : SockaddrHashable → AddressMap → AddressMap
unfolding addr_eq
erase_addr a [] = []
erase_addr a ((b, q) ∷ m) = let rest = erase_addr a m in if addr_eq b a then rest else (b, q) ∷ rest

pub find_addr-insert_addr :
    (a b : SockaddrHashable) (p : ℕ) (m : AddressMap)
    → find_addr b (insert_addr a p m) ≡ (
        if addr_eq a b
        then (elim (find_addr a m) [ none ↦ some p | some q ↦ some q ])
        else find_addr b m)
unfolding find_addr insert_addr
find_addr-insert_addr a b p [] = refl
find_addr-insert_addr a b p ((c, q) ∷ m) = ground (arith, find_addr-insert_addr a b p m)
