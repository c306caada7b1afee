-- ===== src/UdpNetwork/Meeting/Carrier.antt =====
-- src/Protocol.hpp and src/UDPNetwork.cpp: packets as the handshake makes them, and as they arrive.
use kapua.Prelude.{
  ℕ, ◌≤◌, ◌<◌, ◌^◌, ◌≡◌, ◌≢◌, refl, ap, ◌∙◌, true, false, List, length, take, arith, ltb, some,
}
use kapua.Prelude.Bytes.{overwrite, length-overwrite, take-overwrite}
use kapua.Prelude.Results.{ok}
use kapua.OpenSsl.{OpenSsl}
use kapua.Protocol.{
  Packet, PacketType, type_code, new_to, magic_number, check_version_valid, read_public_key,
  max_data_size,
}
use kapua.Protocol.Wire.{IsWire}

-- A packet that another node takes for one: its fields fit the wire, its data is within the array, its
-- magic number and its version are right, and it is another node's.
pub record Proper (me : ℕ) (pkt : Packet) : Type 0 where
  pub wire : IsWire pkt
  pub magic : pkt.magic ≡ magic_number
  pub version : check_version_valid false pkt ≡ true
  pub size : pkt.size ≤ max_data_size
  pub foreign : pkt.from_id ≢ me

-- A packet to one node with some data, made in the memory `raw`.
abbrev pub carrier : PacketType → ℕ → ℕ → Packet → List ℕ → Packet
carrier t from to raw payload =
    let fresh = new_to t from to raw in
    record fresh { size = length payload; bytes = overwrite payload fresh.bytes }

pub new_to-IsWire :
    (t : PacketType) (from to : ℕ) (raw : Packet)
    → IsWire raw
    → type_code t < 256 ^ 2
    → from < 256 ^ 8
    → to < 256 ^ 8
    → IsWire (new_to t from to raw)
unfolding new_to
new_to-IsWire t from to raw w code f g = record {
  magic = refl;
  major = omega arith;
  minor = omega arith;
  patch = omega arith;
  type_id = code;
  packet_id = w.packet_id;
  from_id = f;
  to_id = g;
  ttl = omega arith;
  request_id = w.request_id;
  size = omega arith;
  bytes = w.bytes;
}

filled :
    (p : Packet) (n : ℕ) (bs : List ℕ)
    → IsWire p
    → n < 256 ^ 2
    → length bs ≡ max_data_size
    → IsWire (record p { size = n; bytes = bs })
filled p n bs w h l = record {
  magic = w.magic;
  major = w.major;
  minor = w.minor;
  patch = w.patch;
  type_id = w.type_id;
  packet_id = w.packet_id;
  from_id = w.from_id;
  to_id = w.to_id;
  ttl = w.ttl;
  request_id = w.request_id;
  size = h;
  bytes = l;
}

-- A packet without data.
pub new_to-Proper :
    (t : PacketType) (me from to : ℕ) (raw : Packet)
    → IsWire raw
    → type_code t < 256 ^ 2
    → from < 256 ^ 8
    → to < 256 ^ 8
    → from ≢ me
    → Proper me (new_to t from to raw)
unfolding new_to check_version_valid
new_to-Proper t me from to raw w code f g other = record {
  wire = new_to-IsWire t from to raw w code f g;
  magic = refl;
  version = refl;
  size = omega arith;
  foreign = other;
}

pub carrier-Proper :
    (t : PacketType) (me from to : ℕ) (raw : Packet) (payload : List ℕ)
    → IsWire raw
    → type_code t < 256 ^ 2
    → from < 256 ^ 8
    → to < 256 ^ 8
    → length payload ≤ max_data_size
    → from ≢ me
    → Proper me (carrier t from to raw payload)
unfolding new_to check_version_valid
carrier-Proper t me from to raw payload w code f g short other =
    let u = new_to-IsWire t from to raw w code f g in
    record {
      wire =
          filled _ (length payload) (overwrite payload raw.bytes) u (omega (arith, short))
            (length-overwrite payload raw.bytes ∙ w.bytes);
      magic = refl;
      version = refl;
      size = short;
      foreign = other;
    }

-- A packet as it is in a memory that held something else before.
abbrev pub arrived : Packet → List ℕ → Packet
arrived pkt rest = record pkt { bytes = overwrite (take pkt.size pkt.bytes) rest }

-- The data of a packet that arrived.
pub payload_arrives :
    (t : PacketType) (from to : ℕ) (raw : Packet) (payload rest : List ℕ)
    → IsWire raw
    → length payload ≤ max_data_size
    → length rest ≡ max_data_size
    → take (length payload) (arrived (carrier t from to raw payload) rest).bytes ≡ payload
unfolding new_to
payload_arrives t from to raw payload rest w short room =
    let sent : take (length payload) (overwrite payload raw.bytes) ≡ payload =
      take-overwrite payload raw.bytes (omega (arith, w.bytes, short)) in
    ap (λ bytes. take (length payload) (overwrite bytes rest)) sent
    ∙ take-overwrite payload rest (omega (arith, room, short))

pub legible_arrives :
    (o : OpenSsl) (t : PacketType) (from to key : ℕ) (raw : Packet) (der rest : List ℕ)
    → IsWire raw
    → length der ≤ max_data_size
    → length rest ≡ max_data_size
    → o.d2i der ≡ some key
    → read_public_key o (arrived (carrier t from to raw der) rest) ≡ ok key
unfolding read_public_key new_to
legible_arrives o t from to key raw der rest w short room legible =
    let within : ltb max_data_size (length der) ≡ false = ground (arith, short) in
    let same = payload_arrives t from to raw der rest w short room in
    rw (within, same, legible, read_public_key) refl
