-- ===== src/Common/Words.antt =====
-- Machine integers as numbers, with the wrap of each width, and their little-endian bytes.
use Prim.Native.Nat.{ℕ, ◌+◌, ◌-◌, ◌*◌, ◌/◌, ◌%◌, ◌<◌}
use mathlib.Core.Path.{◌≡◌}
use mathlib.Core.List.{List, [], ◌∷◌}
use native.Mathlib.Omega.{arith}

abbrev pub u8 : ℕ → ℕ
u8 x = x % 256

abbrev pub u16 : ℕ → ℕ
u16 x = x % 65536

abbrev pub u32_mod : ℕ
u32_mod = 4294967296

abbrev pub u32 : ℕ → ℕ
u32 x = x % u32_mod

-- `a - b` on `uint32_t`, as in `nowMs - this->startMs`.
abbrev pub sub32 : ℕ → ℕ → ℕ
sub32 a b = (a + u32_mod - b) % u32_mod

-- The two bytes of a `uint16_t` in memory (both targets are little-endian).
abbrev pub bytes16 : ℕ → List ℕ
bytes16 x = (x % 256) ∷ (x / 256 % 256) ∷ []

abbrev pub read16 : ℕ → ℕ → ℕ
read16 lo hi = lo + 256 * hi

pub read16-bytes16 : (x : ℕ) → x < 65536 → read16 (x % 256) (x / 256 % 256) ≡ x
read16-bytes16 x h = omega arith
