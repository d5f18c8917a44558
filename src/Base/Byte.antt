-- ===== src/Base/Byte.antt =====
-- What the sources take for granted of a text: each of its elements is a byte.
use Prim.Native.Nat.{ℕ, zero, suc, ◌/◌, ◌%◌, ◌<◌, ◌+◌}
use mathlib.Core.Path.{◌≡◌}
use mathlib.Core.Bool.{Bool, true, ◌&&◌}
use mathlib.Core.List.{[], ◌∷◌, ◌++◌}
use native.Mathlib.Omega.{arith}
use docker_compose_seckill_s.Base.Tests.{ltb}
use docker_compose_seckill_s.Base.Lists.{take, drop, replicate, get_or}
use docker_compose_seckill_s.Base.Text.{Bytes, emit, to_string}

abbrev pub AreBytes : Bytes → Type 0
AreBytes [] = Unit {0}
AreBytes (x ∷ xs) = (x < 256) × AreBytes xs

-- The test of it.
unfoldable pub all_bytes : Bytes → Bool
all_bytes [] = true
all_bytes (x ∷ xs) = ltb x 256 && all_bytes xs

pub all_bytes-AreBytes : (b : Bytes) → all_bytes b ≡ true → AreBytes b
unfolding all_bytes
all_bytes-AreBytes [] h = tt
all_bytes-AreBytes (x ∷ xs) h = (ground arith, all_bytes-AreBytes xs (ground arith))

pub AreBytes-get_or : (b : Bytes) (i : ℕ) → AreBytes b → get_or b i 0 < 256
AreBytes-get_or [] i h = omega arith
AreBytes-get_or (x ∷ b) zero (h, hs) = h
AreBytes-get_or (x ∷ b) (suc i) (h, hs) = AreBytes-get_or b i hs

pub AreBytes-append : (xs ys : Bytes) → AreBytes xs → AreBytes ys → AreBytes (xs ++ ys)
AreBytes-append [] ys h k = k
AreBytes-append (x ∷ xs) ys (h, hs) k = (h, AreBytes-append xs ys hs k)

pub AreBytes-take : (n : ℕ) (b : Bytes) → AreBytes b → AreBytes (take n b)
AreBytes-take zero b h = tt
AreBytes-take (suc n) [] h = tt
AreBytes-take (suc n) (x ∷ b) (h, hs) = (h, AreBytes-take n b hs)

pub AreBytes-drop : (n : ℕ) (b : Bytes) → AreBytes b → AreBytes (drop n b)
AreBytes-drop zero b h = h
AreBytes-drop (suc n) [] h = tt
AreBytes-drop (suc n) (x ∷ b) (h, hs) = AreBytes-drop n b hs

pub zeros-AreBytes : (n : ℕ) → AreBytes (replicate n 0)
zeros-AreBytes zero = tt
zeros-AreBytes (suc n) = (omega arith, zeros-AreBytes n)

emit-AreBytes : (fuel n : ℕ) (out : Bytes) → AreBytes out → AreBytes (emit fuel n out)
unfolding emit
emit-AreBytes zero n out h = h
emit-AreBytes (suc fuel) n out h =
    ground (arith, h, emit-AreBytes fuel (n / 10) ((48 + n % 10) ∷ out) (omega arith, h))

pub to_string-AreBytes : (n : ℕ) → AreBytes (to_string n)
unfolding to_string
to_string-AreBytes n = emit-AreBytes (suc n) n [] tt
