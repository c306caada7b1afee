-- ===== src/Prelude/Bytes.antt =====
-- Bytes as numbers below 256, integers in the host's little-endian order, and memory that is
-- overwritten from its beginning.
use native.Mathlib.Nat.{pow-suc}
use Prim.Native.Nat.{ℕ, zero, suc, ◌+◌, ◌*◌, ◌/◌, ◌%◌, ◌^◌, ◌≤◌, ◌<◌}
use mathlib.Core.Path.{◌≡◌, refl, ap}
use mathlib.Core.List.{List, [], ◌∷◌}
use native.Mathlib.Omega.{arith}
use kapua.Prelude.Lists.{length, take, drop}

abbrev pub AreBytes : List ℕ → Type 0
AreBytes [] = Unit {0}
AreBytes (b ∷ bs) = (b < 256) × AreBytes bs

-- The low `n` bytes of `v`, the lowest first.
unfoldable pub le_bytes : ℕ → ℕ → List ℕ
le_bytes zero v = []
le_bytes (suc n) v = v % 256 ∷ le_bytes n (v / 256)

unfoldable pub from_le : List ℕ → ℕ
from_le [] = 0
from_le (b ∷ bs) = b + 256 * from_le bs

pub length-le_bytes : (n v : ℕ) → length (le_bytes n v) ≡ n
unfolding le_bytes
length-le_bytes zero v = refl
length-le_bytes (suc n) v = ap suc (length-le_bytes n (v / 256))

pub le_bytes-AreBytes : (n v : ℕ) → AreBytes (le_bytes n v)
unfolding le_bytes
le_bytes-AreBytes zero v = tt
le_bytes-AreBytes (suc n) v = (omega arith, le_bytes-AreBytes n (v / 256))

pub from_le-le_bytes : (n v : ℕ) → v < 256 ^ n → from_le (le_bytes n v) ≡ v
unfolding le_bytes from_le
from_le-le_bytes zero v h = omega arith
from_le-le_bytes (suc n) v h =
    let below : v < 256 ^ n * 256 = rw (← pow-suc 256 n) h in
    omega (arith, from_le-le_bytes n (v / 256) (omega arith))

pub le_bytes-from_le : (bs : List ℕ) → AreBytes bs → le_bytes (length bs) (from_le bs) ≡ bs
unfolding le_bytes from_le
le_bytes-from_le [] h = refl
le_bytes-from_le (b ∷ bs) h =
    let low : (b + 256 * from_le bs) % 256 ≡ b = omega arith in
    let high : (b + 256 * from_le bs) / 256 ≡ from_le bs = omega arith in
    rw (low, high, le_bytes-from_le bs h.1)

pub from_le-lt : (bs : List ℕ) → AreBytes bs → from_le bs < 256 ^ length bs
unfolding from_le
from_le-lt [] h = omega arith
from_le-lt (b ∷ bs) h = rw (pow-suc 256 (length bs)) (omega (arith, from_le-lt bs h.1))

pub take-AreBytes : (n : ℕ) (bs : List ℕ) → AreBytes bs → AreBytes (take n bs)
take-AreBytes zero bs h = tt
take-AreBytes (suc n) [] h = tt
take-AreBytes (suc n) (b ∷ bs) h = (h.0, take-AreBytes n bs h.1)

pub drop-AreBytes : (n : ℕ) (bs : List ℕ) → AreBytes bs → AreBytes (drop n bs)
drop-AreBytes zero bs h = h
drop-AreBytes (suc n) [] h = tt
drop-AreBytes (suc n) (b ∷ bs) h = drop-AreBytes n bs h.1

-- `memcpy(old, new, length new)`: the bytes of `old` beyond the copy stay. What does not fit is cut,
-- as `recvfrom` cuts a datagram that is larger than its buffer.
abbrev pub overwrite : List ℕ → List ℕ → List ℕ
overwrite bs [] = []
overwrite [] (c ∷ cs) = c ∷ cs
overwrite (b ∷ bs) (c ∷ cs) = b ∷ overwrite bs cs

pub length-overwrite : (bs cs : List ℕ) → length (overwrite bs cs) ≡ length cs
length-overwrite bs [] = refl
length-overwrite [] (c ∷ cs) = refl
length-overwrite (b ∷ bs) (c ∷ cs) = ap suc (length-overwrite bs cs)

pub take-overwrite :
    (bs cs : List ℕ) → length bs ≤ length cs → take (length bs) (overwrite bs cs) ≡ bs
take-overwrite [] cs h = refl
take-overwrite (b ∷ bs) [] h = absurd (omega arith)
take-overwrite (b ∷ bs) (c ∷ cs) h = rw (take-overwrite bs cs (omega arith))

pub overwrite_whole : (bs cs : List ℕ) → length bs ≡ length cs → overwrite bs cs ≡ bs
overwrite_whole [] [] h = refl
overwrite_whole [] (c ∷ cs) h = absurd (omega arith)
overwrite_whole (b ∷ bs) [] h = absurd (omega arith)
overwrite_whole (b ∷ bs) (c ∷ cs) h = rw (overwrite_whole bs cs (omega arith))
