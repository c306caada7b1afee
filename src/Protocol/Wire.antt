-- ===== src/Protocol/Wire.antt =====
-- src/Protocol.hpp: the packed struct as bytes. `UDPNetwork` sends a packet's memory and receives into
-- it, so these conversions are its wire format.
use mathlib.Core.List.{append_assoc}
use kapua.Prelude.{
  ℕ, zero, suc, ◌+◌, ◌≤◌, ◌<◌, ◌^◌, ◌≡◌, refl, ap, sym, ◌∙◌, List, [], ◌∷◌, ◌++◌, length, take,
  drop, arith, length-append, length-take, length-drop, drop-drop, take-append-drop,
}
use kapua.Prelude.Bytes.{
  AreBytes, overwrite, length-overwrite, le_bytes, from_le, from_le-le_bytes, le_bytes-from_le,
  take-AreBytes, drop-AreBytes,
}
use kapua.Protocol.{
  Packet, field, fields_then, header_bytes, to_bytes, of_bytes, header_size, max_packet_size,
  max_data_size,
}

-- Every field fits its type, and the arrays have their lengths.
pub record IsWire (p : Packet) : Type 0 where
  pub magic : length p.magic ≡ 5
  pub major : p.version.major < 256
  pub minor : p.version.minor < 256
  pub patch : p.version.patch < 256
  pub type_id : p.type_id < 256 ^ 2
  pub packet_id : p.packet_id < 256 ^ 8
  pub from_id : p.from_id < 256 ^ 8
  pub to_id : p.to_id < 256 ^ 8
  pub ttl : p.ttl < 256 ^ 2
  pub request_id : p.request_id < 256 ^ 8
  pub size : p.size < 256 ^ 2
  pub bytes : length p.bytes ≡ max_data_size

drop_past : (t k : ℕ) (xs ys : List ℕ) → t ≡ length xs + k → drop t (xs ++ ys) ≡ drop k ys
drop_past t k [] ys h = ap (λ (n : ℕ). drop n ys) (omega arith)
drop_past zero k (x ∷ xs) ys h = absurd (omega arith)
drop_past (suc t) k (x ∷ xs) ys h = drop_past t k xs ys (omega arith)

take_all : (n : ℕ) (xs ys : List ℕ) → n ≡ length xs → take n (xs ++ ys) ≡ xs
take_all zero [] ys h = refl
take_all (suc n) [] ys h = absurd (omega arith)
take_all zero (x ∷ xs) ys h = absurd (omega arith)
take_all (suc n) (x ∷ xs) ys h = rw (take_all n xs ys (omega arith))

-- A field behind the magic number, whose bytes stand `k` bytes into the rest of the struct.
field_behind :
    (offset k n : ℕ) (magic after : List ℕ)
    → length magic ≡ 5
    → offset ≡ 5 + k
    → field offset n (magic ++ after) ≡ take n (drop k after)
field_behind offset k n magic after h e = ap (take n) (drop_past offset k magic after (omega arith))

-- Reading the struct's bytes back gives the packet, where every field fits its type.
pub of_bytes-to_bytes : (p : Packet) → IsWire p → of_bytes (to_bytes p) ≡ p
unfolding of_bytes to_bytes le_bytes
of_bytes-to_bytes p w = λ i. record {
  magic = take_all 5 p.magic after (omega arith) i;
  version = record {
    major = number 5 0 1 p.version.major (omega arith) w.major refl i;
    minor = number 6 1 1 p.version.minor (omega arith) w.minor refl i;
    patch = number 7 2 1 p.version.patch (omega arith) w.patch refl i;
  };
  type_id = number 8 3 2 p.type_id (omega arith) w.type_id refl i;
  packet_id = number 10 5 8 p.packet_id (omega arith) w.packet_id refl i;
  from_id = number 18 13 8 p.from_id (omega arith) w.from_id refl i;
  to_id = number 26 21 8 p.to_id (omega arith) w.to_id refl i;
  ttl = number 34 29 2 p.ttl (omega arith) w.ttl refl i;
  request_id = number 36 31 8 p.request_id (omega arith) w.request_id refl i;
  size = number 44 39 2 p.size (omega arith) w.size refl i;
  bytes = drop_past 46 41 p.magic after (omega arith) i;
}
  where
    after : List ℕ
    after = fields_then p p.bytes

    number :
        (offset k n v : ℕ)
        → offset ≡ 5 + k
        → v < 256 ^ n
        → take n (drop k after) ≡ le_bytes n v
        → from_le (field offset n (p.magic ++ after)) ≡ v
    number offset k n v e h t =
        rw (field_behind offset k n p.magic after w.magic e, t) (from_le-le_bytes n v h)

-- A run of bytes as the integer that it holds, written again, and what follows it.
rewritten :
    (offset n : ℕ) (bs : List ℕ)
    → AreBytes bs
    → offset + n ≤ length bs
    → le_bytes n (from_le (field offset n bs)) ++ drop (offset + n) bs ≡ drop offset bs
rewritten offset n bs h fits =
    let run : length (field offset n bs) ≡ n =
      omega (arith, length-take n (drop offset bs), length-drop offset bs) in
    let same : le_bytes n (from_le (field offset n bs)) ≡ field offset n bs =
      ap (λ (k : ℕ). le_bytes k (from_le (field offset n bs))) (sym run)
      ∙ le_bytes-from_le (field offset n bs)
          (take-AreBytes n (drop offset bs) (drop-AreBytes offset bs h)) in
    rw (same, ← drop-drop offset n bs) (take-append-drop n (drop offset bs))

-- Writing a packet that was read from 1450 bytes gives those bytes back.
pub to_bytes-of_bytes :
    (bs : List ℕ) → AreBytes bs → length bs ≡ max_packet_size → to_bytes (of_bytes bs) ≡ bs
unfolding to_bytes of_bytes
to_bytes-of_bytes bs h l =
    rw
      (
        rewritten 44 2 bs h (omega arith),
        rewritten 36 8 bs h (omega arith),
        rewritten 34 2 bs h (omega arith),
        rewritten 26 8 bs h (omega arith),
        rewritten 18 8 bs h (omega arith),
        rewritten 10 8 bs h (omega arith),
        rewritten 8 2 bs h (omega arith),
        rewritten 7 1 bs h (omega arith),
        rewritten 6 1 bs h (omega arith),
        rewritten 5 1 bs h (omega arith),
      )
      (take-append-drop 5 bs)

fields_then-append : (p : Packet) (after : List ℕ) → fields_then p after ≡ fields_then p [] ++ after
unfolding fields_then le_bytes
fields_then-append p after = refl

length-fields_then :
    (p : Packet) (after : List ℕ) → length (fields_then p after) ≡ 41 + length after
unfolding fields_then le_bytes
length-fields_then p after = omega arith

length-header_bytes : (p : Packet) → length p.magic ≡ 5 → length (header_bytes p) ≡ header_size
unfolding header_bytes
length-header_bytes p h =
    omega (arith, length-append p.magic (fields_then p []), length-fields_then p [])

to_bytes-append : (p : Packet) → to_bytes p ≡ header_bytes p ++ p.bytes
unfolding to_bytes header_bytes
to_bytes-append p =
    rw (fields_then-append p p.bytes, append_assoc p.magic (fields_then p []) p.bytes)

take-append : (k n : ℕ) (xs ys : List ℕ) → k ≡ length xs + n → take k (xs ++ ys) ≡ xs ++ take n ys
take-append k n [] ys h = ap (λ (t : ℕ). take t ys) (omega arith)
take-append zero n (x ∷ xs) ys h = absurd (omega arith)
take-append (suc k) n (x ∷ xs) ys h = rw (take-append k n xs ys (omega arith))

overwrite-append :
    (k : ℕ) (xs ys zs : List ℕ)
    → k ≡ length xs
    → k ≤ length zs
    → overwrite (xs ++ ys) zs ≡ xs ++ overwrite ys (drop k zs)
overwrite-append zero [] ys zs e h = refl
overwrite-append (suc k) [] ys zs e h = absurd (omega arith)
overwrite-append zero (x ∷ xs) ys zs e h = absurd (omega arith)
overwrite-append (suc k) (x ∷ xs) ys [] e h = absurd (omega arith)
overwrite-append (suc k) (x ∷ xs) ys (z ∷ zs) e h =
    rw (overwrite-append k xs ys zs (omega arith) (omega arith))

-- The header is 46 bytes, the struct 1450, so that the first 46 + n bytes of a packet are its header
-- and the first n bytes of its data.
pub length-to_bytes :
    (p : Packet) (n : ℕ)
    → IsWire p
    → (length (header_bytes p) ≡ header_size)
      × (length (to_bytes p) ≡ max_packet_size)
      × (take (header_size + n) (to_bytes p) ≡ header_bytes p ++ take n p.bytes)
length-to_bytes p n w =
    let l = length-header_bytes p w.magic in
    (
      l,
      omega (arith, w.bytes, ap length (to_bytes-append p), length-append (header_bytes p) p.bytes),
      rw (to_bytes-append p)
          (take-append (header_size + n) n (header_bytes p) p.bytes (omega arith)),
    )

-- A packet whose header and counted data arrive in a buffer with older contents is read with every
-- header field as it was sent and its counted data first; the rest of the data array is what the
-- buffer held there before.
pub of_bytes-overwrite :
    (p : Packet) (old : List ℕ)
    → IsWire p
    → length old ≡ max_packet_size
    → of_bytes (overwrite (take (header_size + p.size) (to_bytes p)) old)
      ≡ record p { bytes = overwrite (take p.size p.bytes) (drop header_size old) }
unfolding header_bytes
of_bytes-overwrite p old w l =
    let q : Packet = record p { bytes = overwrite (take p.size p.bytes) (drop header_size old) } in
    rw
      (
        (length-to_bytes p p.size w).2,
        overwrite-append header_size (header_bytes p) (take p.size p.bytes) old
            (sym (length-header_bytes p w.magic)) (omega arith),
      )
      (ap of_bytes (sym (to_bytes-append q))
        ∙ of_bytes-to_bytes q (
            omega (
              arith,
              length-overwrite (take p.size p.bytes) (drop header_size old),
              length-drop header_size old,
            )))
