-- ===== src/Queues/ByteRing.antt =====
-- lib/Lightnet/Core/Common/ByteRing.hpp: a ring of single bytes between one producer and one consumer.
-- `CapacityBytes` is the argument `capacity`.
pub mod Refinement
pub mod Interleaving
use lightnet_firmware.Common.{
  ℕ, ◌+◌, ◌%◌, Bool, true, false, List, Option, none, some, ◌==◌, leb, if◌then◌else◌, get_or, set,
  u8, u16,
}
use lightnet_firmware.Queues.Positions.{next}

pub record ByteRing : Type 0 where
  pub buf : List ℕ
  pub w : ℕ
  pub r : ℕ

-- The cast to `Index`: `RingIndexType` is uint8_t if the capacity fits.
unfoldable pub to_index : ℕ → ℕ → ℕ
to_index capacity n = if leb capacity 256 then u8 n else u16 n

-- The constructor leaves the array as the memory was.
unfoldable pub new : List ℕ → ByteRing
new memory = record { buf = memory; w = 0; r = 0 }

unfoldable pub push : ℕ → ByteRing → ℕ → ByteRing × Bool
unfolding to_index
push capacity q value =
    let following = to_index capacity (next capacity q.w) in
    if following == q.r
    then (q, false)
    else (record q { buf = set q.buf q.w value; w = following }, true)

unfoldable pub pop : ℕ → ByteRing → ByteRing × Option ℕ
unfolding to_index
pop capacity q =
    if q.w == q.r
    then (q, none)
    else (record q { r = to_index capacity (next capacity q.r) }, some (get_or q.buf q.r 0))

unfoldable pub empty : ByteRing → Bool
empty q = q.w == q.r

unfoldable pub reset : ByteRing → ByteRing
reset q = record q { w = 0; r = 0 }
