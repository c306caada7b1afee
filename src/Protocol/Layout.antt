-- ===== src/Protocol/Layout.antt =====
-- src/Protocol.hpp: the packed struct as a type of byte arrays.
use mathlib.Core.HLevel.{Σ_prop_path, ×_prop, ×₃_prop}
use mathlib.Core.Equiv.{IsEquiv, iso_to_equiv}
use native.Mathlib.Bridge.{le_prop}
use native.Mathlib.Nat.{ℕ_set}
use kapua.Prelude.{
  ℕ, ◌+◌, ◌<◌, ◌≤◌, ◌^◌, ◌≡◌, refl, List, [], ◌∷◌, ◌++◌, length, drop, arith, length-take,
  length-drop,
}
use kapua.Prelude.Bytes.{
  AreBytes, le_bytes, from_le, from_le-lt, le_bytes-AreBytes, take-AreBytes, drop-AreBytes,
}
use kapua.Protocol.{Packet, field, to_bytes, of_bytes, fields_then, max_packet_size}
use kapua.Protocol.Wire.{IsWire, of_bytes-to_bytes, to_bytes-of_bytes, length-to_bytes}

IsWire-prop : (p : Packet) → IsProp (IsWire p)
IsWire-prop p v w = λ i. record {
  magic = ℕ_set _ _ v.magic w.magic i;
  major = le_prop v.major w.major i;
  minor = le_prop v.minor w.minor i;
  patch = le_prop v.patch w.patch i;
  type_id = le_prop v.type_id w.type_id i;
  packet_id = le_prop v.packet_id w.packet_id i;
  from_id = le_prop v.from_id w.from_id i;
  to_id = le_prop v.to_id w.to_id i;
  ttl = le_prop v.ttl w.ttl i;
  request_id = le_prop v.request_id w.request_id i;
  size = le_prop v.size w.size i;
  bytes = ℕ_set _ _ v.bytes w.bytes i;
}

AreBytes-prop : (bs : List ℕ) → IsProp (AreBytes bs)
AreBytes-prop [] = λ a b. refl
AreBytes-prop (b ∷ bs) = ×_prop le_prop (AreBytes-prop bs)

-- A packet with every field in its type, and 1450 bytes.
abbrev WirePacket : Type 0
WirePacket = (p : Packet) × (IsWire p × AreBytes p.magic × AreBytes p.bytes)

abbrev Image : Type 0
Image = (bs : List ℕ) × (AreBytes bs × (length bs ≡ max_packet_size))

append-AreBytes : (xs ys : List ℕ) → AreBytes xs → AreBytes ys → AreBytes (xs ++ ys)
append-AreBytes [] ys h k = k
append-AreBytes (x ∷ xs) ys h k = (h.0, append-AreBytes xs ys h.1 k)

to_bytes-AreBytes : (p : Packet) → AreBytes p.magic → AreBytes p.bytes → AreBytes (to_bytes p)
unfolding to_bytes fields_then
to_bytes-AreBytes p h k = append-AreBytes p.magic _ h (
    number 1 p.version.major _ (
      number 1 p.version.minor _ (
        number 1 p.version.patch _ (
          number 2 p.type_id _ (
            number 8 p.packet_id _ (
              number 8 p.from_id _ (
                number 8 p.to_id _
                  (number 2 p.ttl _ (number 8 p.request_id _ (number 2 p.size _ k))))))))))
  where
    number : (n v : ℕ) (after : List ℕ) → AreBytes after → AreBytes (le_bytes n v ++ after)
    number n v after a = append-AreBytes (le_bytes n v) after (le_bytes-AreBytes n v) a

field-lt :
    (offset n : ℕ) (bs : List ℕ)
    → AreBytes bs
    → offset + n ≤ length bs
    → from_le (field offset n bs) < 256 ^ n
field-lt offset n bs h fits =
    let run : length (field offset n bs) ≡ n =
      omega (arith, length-take n (drop offset bs), length-drop offset bs) in
    rw run at (
      from_le-lt (field offset n bs) (take-AreBytes n (drop offset bs) (drop-AreBytes offset bs h)))

of_bytes-IsWire : (bs : List ℕ) → AreBytes bs → length bs ≡ max_packet_size → IsWire (of_bytes bs)
unfolding of_bytes
of_bytes-IsWire bs h l = record {
  magic = omega (arith, length-take 5 bs);
  major = field-lt 5 1 bs h (omega arith);
  minor = field-lt 6 1 bs h (omega arith);
  patch = field-lt 7 1 bs h (omega arith);
  type_id = field-lt 8 2 bs h (omega arith);
  packet_id = field-lt 10 8 bs h (omega arith);
  from_id = field-lt 18 8 bs h (omega arith);
  to_id = field-lt 26 8 bs h (omega arith);
  ttl = field-lt 34 2 bs h (omega arith);
  request_id = field-lt 36 8 bs h (omega arith);
  size = field-lt 44 2 bs h (omega arith);
  bytes = omega (arith, length-drop 46 bs);
}

abbrev image : WirePacket → Image
image (p, (w, magic, bytes)) =
    (to_bytes p, (to_bytes-AreBytes p magic bytes, (length-to_bytes p 0 w).1))

packet_of : Image → WirePacket
unfolding of_bytes
packet_of (bs, (h, l)) =
    (of_bytes bs, (of_bytes-IsWire bs h l, take-AreBytes 5 bs h, drop-AreBytes 46 bs h))

-- The packets whose fields fit their types and the arrays of 1450 bytes are one type: `to_bytes` is an
-- equivalence, so every such array is the memory of exactly one packet, and no packet has room for more.
image-IsEquiv : IsEquiv image
unfolding packet_of
image-IsEquiv =
    (iso_to_equiv (record {
      fun = image;
      inv = packet_of;
      rinv = λ b.
          Σ_prop_path (λ bs. ×_prop (AreBytes-prop bs) (ℕ_set _ _))
            (to_bytes-of_bytes b.0 b.1.0 b.1.1);
      linv = λ a.
          Σ_prop_path (λ p. ×₃_prop (IsWire-prop p) (AreBytes-prop p.magic) (AreBytes-prop p.bytes))
            (of_bytes-to_bytes a.0 a.1.0);
    })).1
