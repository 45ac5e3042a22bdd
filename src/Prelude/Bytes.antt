-- ===== src/Prelude/Bytes.antt =====
-- encoding/binary's big-endian readers and writers on byte slices: a slice is a list of numbers.
use sun_ray2server.Prelude.Lists.{length, get_or, set, length-set, get_or-set_self, get_or-set_ne}
use Prim.Native.Nat.{ℕ, suc, ◌+◌, ◌*◌, ◌/◌, ◌%◌, ◌<◌}
use mathlib.Core.Path.{◌≡◌}
use mathlib.Core.List.{List}
use native.Mathlib.Omega.{arith}

-- Go's conversions uint8(n), uint16(n) and uint32(n).
abbrev pub u8 : ℕ → ℕ
u8 n = n % 256

abbrev pub u16 : ℕ → ℕ
u16 n = n % 65536

abbrev pub u32 : ℕ → ℕ
u32 n = n % 4294967296

abbrev pub IsByte : ℕ → Type 0
IsByte b = b < 256

-- BigEndian.PutUint16(b[i:i+2], uint16(v))
abbrev pub put_u16 : List ℕ → ℕ → ℕ → List ℕ
put_u16 b i v = set (set b i (v / 256 % 256)) (suc i) (v % 256)

-- BigEndian.Uint16(b[i:i+2])
abbrev pub get_u16 : List ℕ → ℕ → ℕ
get_u16 b i = get_or b i 0 * 256 + get_or b (suc i) 0

-- BigEndian.PutUint32(b[i:i+4], uint32(v))
abbrev pub put_u32 : List ℕ → ℕ → ℕ → List ℕ
put_u32 b i v = put_u16 (put_u16 b i (v / 65536)) (suc (suc i)) v

-- BigEndian.Uint32(b[i:i+4])
abbrev pub get_u32 : List ℕ → ℕ → ℕ
get_u32 b i = get_u16 b i * 65536 + get_u16 b (suc (suc i))

pub length-put_u16 : (b : List ℕ) (i v : ℕ) → length (put_u16 b i v) ≡ length b
length-put_u16 b i v =
    omega (
      arith,
      length-set (set b i (v / 256 % 256)) (suc i) (v % 256),
      length-set b i (v / 256 % 256),
    )

pub get_u16-put_u16 : (b : List ℕ) (i v : ℕ) → suc i < length b → get_u16 (put_u16 b i v) i ≡ u16 v
get_u16-put_u16 b i v h = omega (
  arith,
  get_or-set_self (set b i (v / 256 % 256)) (suc i) (v % 256) 0
      (omega (arith, length-set b i (v / 256 % 256))),
  get_or-set_ne (set b i (v / 256 % 256)) (suc i) i (v % 256) 0 (omega arith),
  get_or-set_self b i (v / 256 % 256) 0 (omega arith),
)
