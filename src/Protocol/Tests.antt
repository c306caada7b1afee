-- ===== src/Protocol/Tests.antt =====
-- src/Protocol.hpp: a packet, and the theorems on its wire format at it.
use kapua.Prelude.{
  ℕ, zero, suc, ◌+◌, ◌≡◌, refl, true, false, List, [], ◌∷◌, ◌++◌, take, drop, replicate, arith,
  length-replicate, length-append,
}
use kapua.Prelude.Bytes.{AreBytes, overwrite, le_bytes}
use kapua.Protocol.{
  Packet, magic_number, kapua_version, new_reply, new_to, new_broadcast, new_packet,
  public_key_reply, to_bytes, of_bytes, fields_then, header_bytes, header_size, check_magic_valid,
  check_version_valid, is_reply,
}
use kapua.Protocol.Wire.{IsWire, of_bytes-to_bytes, to_bytes-of_bytes, of_bytes-overwrite}

-- The packet Ready with three bytes of data, from node 9 to node 7.
abbrev pub sample : Packet
sample = record {
  magic = magic_number;
  version = kapua_version;
  type_id = 4;
  packet_id = 77;
  from_id = 9;
  to_id = 7;
  ttl = 32;
  request_id = 0;
  size = 3;
  bytes = (1 ∷ 2 ∷ 3 ∷ []) ++ replicate 1401 0;
}

pub sample-IsWire : IsWire sample
sample-IsWire = record {
  magic = refl;
  major = omega arith;
  minor = omega arith;
  patch = omega arith;
  type_id = omega arith;
  packet_id = omega arith;
  from_id = omega arith;
  to_id = omega arith;
  ttl = omega arith;
  request_id = omega arith;
  size = omega arith;
  bytes = omega (arith, length-replicate {A = ℕ} 1401 0);
}

-- The header of a reply, on the wire.
reply_header :
    header_bytes (new_reply public_key_reply 7 9 300 sample)
    ≡ magic_number
      ++ (0 ∷ 0 ∷ 1 ∷ 2 ∷ 0 ∷ 77 ∷ 0 ∷ 0 ∷ 0 ∷ 0 ∷ 0 ∷ 0 ∷ 0 ∷ 7 ∷ 0 ∷ 0 ∷ 0 ∷ 0 ∷ 0 ∷ 0 ∷ 0 ∷ 9 ∷ 0
          ∷ 0 ∷ 0 ∷ 0 ∷ 0 ∷ 0 ∷ 0 ∷ 32 ∷ 0 ∷ 44 ∷ 1 ∷ 0 ∷ 0 ∷ 0 ∷ 0 ∷ 0 ∷ 0 ∷ 0 ∷ 0 ∷ [])
unfolding header_bytes fields_then new_reply new_to new_broadcast new_packet le_bytes
reply_header = refl

sample_checks :
    (check_magic_valid sample ≡ true)
    × (check_version_valid true sample ≡ true)
    × (is_reply sample ≡ false)
unfolding check_magic_valid check_version_valid is_reply
sample_checks = (refl, refl, refl)

of_bytes-to_bytes_run : of_bytes (to_bytes sample) ≡ sample
of_bytes-to_bytes_run = of_bytes-to_bytes sample sample-IsWire

zeros-AreBytes : (n : ℕ) → AreBytes (replicate n 0)
zeros-AreBytes zero = tt
zeros-AreBytes (suc n) = (omega arith, zeros-AreBytes n)

append-AreBytes : (xs ys : List ℕ) → AreBytes xs → AreBytes ys → AreBytes (xs ++ ys)
append-AreBytes [] ys h k = k
append-AreBytes (x ∷ xs) ys h k = (h.0, append-AreBytes xs ys h.1 k)

abbrev arrived : List ℕ
arrived = magic_number ++ replicate 1445 0

to_bytes-of_bytes_run : to_bytes (of_bytes arrived) ≡ arrived
to_bytes-of_bytes_run =
    to_bytes-of_bytes arrived
      (append-AreBytes magic_number (replicate 1445 0)
        (omega arith, (omega arith, (omega arith, (omega arith, (omega arith, tt)))))
        (zeros-AreBytes 1445))
      (omega
        (arith, length-append magic_number (replicate 1445 0), length-replicate {A = ℕ} 1445 0))

of_bytes-overwrite_run :
    of_bytes (overwrite (take (header_size + 3) (to_bytes sample)) arrived)
    ≡ record sample { bytes = overwrite (take 3 sample.bytes) (drop header_size arrived) }
of_bytes-overwrite_run =
    of_bytes-overwrite sample arrived sample-IsWire (
      omega (arith, length-append magic_number (replicate 1445 0), length-replicate {A = ℕ} 1445 0))
