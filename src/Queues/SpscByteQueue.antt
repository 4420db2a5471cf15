-- ===== src/Queues/SpscByteQueue.antt =====
-- lib/Lightnet/Core/Common/SpscByteQueue.hpp: a ring of records, each stored behind its length.
-- `CapacityBytes` is the argument `capacity`.
pub mod Refinement
use lightnet_firmware.Common.{
  ℕ, zero, suc, ◌+◌, ◌-◌, ◌%◌, Bool, true, false, List, [], ◌∷◌, ◌++◌, ◌==◌, ltb, if◌then◌else◌,
  get_or, set, take, length, u8, u16, read16, bytes16,
}
use lightnet_firmware.Queues.Positions.{next, distance}

pub record SpscByteQueue : Type 0 where
  pub buf : List ℕ
  pub w : ℕ
  pub r : ℕ

unfoldable pub new : List ℕ → SpscByteQueue
new memory = record { buf = memory; w = 0; r = 0 }

-- The cast to `Index`.
unfoldable pub to_index : ℕ → ℕ → ℕ
to_index capacity n = if ltb 256 capacity then u16 n else u8 n

-- `put` for each byte from position `p` on.
unfoldable pub put_all : ℕ → List ℕ → ℕ → List ℕ → List ℕ × ℕ
put_all capacity b p [] = (b, p)
put_all capacity b p (v ∷ vs) = put_all capacity (set b p v) (u16 (next capacity p)) vs

-- `get` for `n` bytes from position `p` on.
unfoldable pub get_all : ℕ → List ℕ → ℕ → ℕ → List ℕ × ℕ
get_all capacity b p zero = ([], p)
get_all capacity b p (suc n) =
    let (vs, q) = get_all capacity b (u16 (next capacity p)) n in (get_or b p 0 ∷ vs, q)

-- `data` is the list of the `len` bytes.
unfoldable pub push : ℕ → SpscByteQueue → List ℕ → SpscByteQueue × Bool
unfolding put_all to_index
push capacity q data_bytes =
    let len = length data_bytes in
    let used = distance capacity q.r q.w in
    if len == 0
    then (q, false)
    else if ltb (u16 (capacity - 1 - used)) (u16 (2 + len))
    then (q, false)
    else (let (b, p) = put_all capacity q.buf q.w (bytes16 len ++ data_bytes) in
        (record { buf = b; w = to_index capacity p; r = q.r }, true))

-- The bytes copied out, and the length returned.
unfoldable pub pop : ℕ → SpscByteQueue → ℕ → SpscByteQueue × List ℕ × ℕ
unfolding get_all to_index
pop capacity q out_cap =
    if q.w == q.r
    then (q, [], 0)
    else (let (header, p) = get_all capacity q.buf q.r 2 in
        let len = read16 (get_or header 0 0) (get_or header 1 0) in
        let (payload, end) = get_all capacity q.buf p len in
        (record q { r = to_index capacity end }, take out_cap payload, len))

unfoldable pub empty : SpscByteQueue → Bool
empty q = q.w == q.r

unfoldable pub reset : SpscByteQueue → SpscByteQueue
reset q = record q { w = 0; r = 0 }
