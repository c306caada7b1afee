-- ===== src/Protocol.antt =====
-- src/Kapua.hpp and src/Protocol.hpp: the packet, the bytes that it is in memory and on the wire, and
-- the public key that it carries.
pub mod Wire
pub mod Layout
pub mod Names
pub mod Tests
use kapua.Prelude.{
  ℕ, zero, suc, ◌+◌, ◌-◌, ◌≤◌, ◌<◌, ◌^◌, ◌≡◌, refl, Bool, true, false, not, ◌&&◌, List, [], ◌∷◌,
  ◌++◌, Option, none, some, ltb, leb, ◌==◌, if◌then◌else◌, length, take, drop,
}
use kapua.Prelude.Bytes.{le_bytes, from_le, overwrite, AreBytes}
use kapua.Prelude.Results.{
  Result, ok, throws, undefined, runtime_error, past_end, null_pointer, ◌>>=◌,
}
use kapua.OpenSsl.{OpenSsl}

abbrev pub max_packet_size : ℕ
max_packet_size = 1450

abbrev pub header_size : ℕ
header_size = 46

abbrev pub max_data_size : ℕ
max_data_size = 1404

abbrev pub id_broadcast : ℕ
id_broadcast = 0xFFFF_FFFF_FFFF_FFFF

abbrev pub id_null : ℕ
id_null = 0

abbrev pub magic_number : List ℕ
magic_number = 0x4B ∷ 0x61 ∷ 0x70 ∷ 0x75 ∷ 0x61 ∷ []

pub record KapuaVersion : Type 0 where
  pub major : ℕ
  pub minor : ℕ
  pub patch : ℕ

abbrev pub kapua_version : KapuaVersion
kapua_version = record { major = 0; minor = 0; patch = 1 }

-- The values of the enumeration; any other 16-bit number may come off the wire too.
pub data PacketType : Type 0 where
  ping public_key_request public_key_reply encryption_context ready discovery : PacketType
  other : ℕ → PacketType

abbrev pub type_code : PacketType → ℕ
type_code ping = 0
type_code public_key_request = 1
type_code public_key_reply = 2
type_code encryption_context = 3
type_code ready = 4
type_code discovery = 0xFFFF
type_code (other n) = n

-- The `case` that a number takes in a `switch` on the enumeration.
unfoldable pub type_of : ℕ → PacketType
type_of n =
    if n == 0
    then ping
    else if n == 1
    then public_key_request
    else if n == 2
    then public_key_reply
    else if n == 3
    then encryption_context
    else if n == 4
    then ready
    else if n == 0xFFFF
    then discovery
    else other n

pub record Packet : Type 0 where
  pub magic : List ℕ
  pub version : KapuaVersion
  pub type_id : ℕ
  pub packet_id : ℕ
  pub from_id : ℕ
  pub to_id : ℕ
  pub ttl : ℕ
  pub request_id : ℕ
  pub size : ℕ  -- the field `length`
  pub bytes : List ℕ  -- the array `data`

-- The constructors set some fields; the others hold what the memory held, the argument `raw`.
unfoldable pub new_packet : Packet → Packet
new_packet raw = record raw { magic = magic_number; version = kapua_version; ttl = 32; size = 0 }

unfoldable pub new_broadcast : PacketType → ℕ → Packet → Packet
unfolding new_packet
new_broadcast t from raw = record (new_packet raw) {
  type_id = type_code t;
  from_id = from;
  to_id = id_broadcast;
}

unfoldable pub new_to : PacketType → ℕ → ℕ → Packet → Packet
unfolding new_broadcast
new_to t from to raw = record (new_broadcast t from raw) { to_id = to }

unfoldable pub new_reply : PacketType → ℕ → ℕ → ℕ → Packet → Packet
unfolding new_to
new_reply t from to request raw = record (new_to t from to raw) { request_id = request }

-- `memcmp(a, b, n) == 0` for arrays of the length of the second.
abbrev pub same_bytes : List ℕ → List ℕ → Bool
same_bytes [] [] = true
same_bytes (a ∷ as_) (b ∷ bs) = (a == b) && same_bytes as_ bs
same_bytes _ _ = false

unfoldable pub check_magic_valid : Packet → Bool
check_magic_valid p = same_bytes p.magic magic_number

unfoldable pub check_version_valid : Bool → Packet → Bool
check_version_valid strict p =
    if not (p.version.major == kapua_version.major)
    then false
    else if strict && ltb kapua_version.minor p.version.minor
    then false
    else true

unfoldable pub is_reply : Packet → Bool
is_reply p = not (p.request_id == id_null)

-- The packed struct from `version` on, with `after` in place of the data array.
unfoldable pub fields_then : Packet → List ℕ → List ℕ
fields_then p after =
    le_bytes 1 p.version.major
    ++ (le_bytes 1 p.version.minor
        ++ (le_bytes 1 p.version.patch
            ++ (le_bytes 2 p.type_id
                ++ (le_bytes 8 p.packet_id
                    ++ (le_bytes 8 p.from_id
                        ++ (le_bytes 8 p.to_id
                            ++ (le_bytes 2 p.ttl
                                ++ (le_bytes 8 p.request_id ++ (le_bytes 2 p.size ++ after)))))))))

-- The header alone, and the whole struct.
unfoldable pub header_bytes : Packet → List ℕ
unfolding fields_then
header_bytes p = p.magic ++ fields_then p []

unfoldable pub to_bytes : Packet → List ℕ
unfolding fields_then
to_bytes p = p.magic ++ fields_then p p.bytes

-- A field's bytes, at its offset in the struct.
abbrev pub field : ℕ → ℕ → List ℕ → List ℕ
field offset n bs = take n (drop offset bs)

unfoldable pub of_bytes : List ℕ → Packet
of_bytes bs = record {
  magic = field 0 5 bs;
  version = record {
    major = from_le (field 5 1 bs);
    minor = from_le (field 6 1 bs);
    patch = from_le (field 7 1 bs);
  };
  type_id = from_le (field 8 2 bs);
  packet_id = from_le (field 10 8 bs);
  from_id = from_le (field 18 8 bs);
  to_id = from_le (field 26 8 bs);
  ttl = from_le (field 34 2 bs);
  request_id = from_le (field 36 8 bs);
  size = from_le (field 44 2 bs);
  bytes = drop 46 bs;
}

-- `write_public_key`: the packet with the key in its data, or the exception.
unfoldable pub write_public_key : OpenSsl → Option ℕ → Packet → Result Packet
write_public_key o none p = throws runtime_error
write_public_key o (some key) p = elim (o.i2d_length key) [
  | none ↦ throws runtime_error
  | some len ↦
      if leb len 0
      then throws runtime_error
      else if ltb max_data_size len
      then throws runtime_error
      else elim (o.i2d key) [
        | none ↦ throws runtime_error
        | some der ↦
            if ltb max_data_size (length der)
            then undefined past_end
            else if not (length der == len)
            then throws runtime_error
            else ok (record p { size = len; bytes = overwrite der p.bytes })
      ]
]

-- `read_public_key`: the key read. The call is given `length` bytes from the data array on, and a
-- length beyond the array leaves the packet.
unfoldable pub read_public_key : OpenSsl → Packet → Result ℕ
read_public_key o p =
    if ltb max_data_size p.size
    then undefined past_end
    else elim (o.d2i (take p.size p.bytes)) [ none ↦ throws runtime_error | some key ↦ ok key ]
