-- ===== src/Utils/EntryId.antt =====
-- lib/Lightnet/Utils/EntryId.hpp: the identifiers of stored entries. A string is the list of its bytes without the
-- terminating zero. generateRandomId is the one that builds without ARDUINO, with its `state` as an argument.
pub mod RoundTrip
mod Tests
use Prim.Native.Nat.{bit_xor}
use lightnet_firmware.Common.{
  ℕ, zero, suc, ◌+◌, ◌*◌, ◌/◌, ◌%◌, Bool, true, false, not, ◌&&◌, ◌||◌, List, [], ◌∷◌, ◌++◌, Option,
  none, some, ltb, leb, if◌then◌else◌, length, get_or,
}

abbrev pub entry_id_len : ℕ
entry_id_len = 8

abbrev pub entry_id_max : ℕ
entry_id_max = 10

-- The loop of `fnv1a32`.
unfoldable pub fnv1a32_from : ℕ → List ℕ → ℕ
fnv1a32_from h [] = h
fnv1a32_from h (c ∷ s) = fnv1a32_from (bit_xor h c * 16777619 % 4294967296) s

unfoldable pub fnv1a32 : List ℕ → ℕ
unfolding fnv1a32_from
fnv1a32 s = fnv1a32_from 2166136261 s

-- "0123456789abcdefghijklmnopqrstuvwxyz"
abbrev pub digits : List ℕ
digits =
    48 ∷ 49 ∷ 50 ∷ 51 ∷ 52 ∷ 53 ∷ 54 ∷ 55 ∷ 56 ∷ 57 ∷ 97 ∷ 98 ∷ 99 ∷ 100 ∷ 101 ∷ 102 ∷ 103 ∷ 104
    ∷ 105 ∷ 106 ∷ 107 ∷ 108 ∷ 109 ∷ 110 ∷ 111 ∷ 112 ∷ 113 ∷ 114 ∷ 115 ∷ 116 ∷ 117 ∷ 118 ∷ 119 ∷ 120
    ∷ 121 ∷ 122 ∷ []

-- The loop of `encodeBase36Lower`, with `n` places left before those in `out`.
unfoldable pub encode_from : ℕ → ℕ → List ℕ → List ℕ
encode_from value zero out = out
encode_from value (suc n) out = encode_from (value / 36) n (get_or digits (value % 36) 0 ∷ out)

unfoldable pub encode_base36_lower : ℕ → ℕ → List ℕ
unfolding encode_from
encode_base36_lower value len = encode_from value len []

-- The string left in an array of `out_len` bytes.
unfoldable pub deterministic_id : List ℕ → ℕ → List ℕ
unfolding fnv1a32 encode_base36_lower
deterministic_id seed out_len =
    if ltb out_len (entry_id_len + 1) then [] else encode_base36_lower (fnv1a32 seed) entry_id_len

abbrev pub is_id_char : ℕ → Bool
is_id_char c = leb 97 c && leb c 122 || leb 48 c && leb c 57

unfoldable pub has_id_chars : List ℕ → Bool
has_id_chars [] = true
has_id_chars (c ∷ s) = is_id_char c && has_id_chars s

unfoldable pub is_valid_id : List ℕ → Bool
unfolding has_id_chars
is_valid_id id =
    if ltb (length id) entry_id_len || ltb entry_id_max (length id) then false else has_id_chars id

-- The inner loop of `generateRandomId`: `n` characters and the new state.
unfoldable pub random_chars : ℕ → ℕ → ℕ × List ℕ
random_chars zero state = (state, [])
random_chars (suc n) state =
    let next = (state * 1664525 + 1013904223) % 4294967296 in
    let (last, s) = random_chars n next in (last, get_or digits (next % 36) 0 ∷ s)

-- Its outer loop, with `attempts` left: the new state and the id, if one is free.
unfoldable pub attempt_ids : (List ℕ → Bool) → ℕ → ℕ → ℕ × Option (List ℕ)
unfolding random_chars
attempt_ids exists zero state = (state, none)
attempt_ids exists (suc attempts) state =
    let (next, id) = random_chars entry_id_len state in
    let rest = attempt_ids exists attempts next in if exists id then rest else (next, some id)

unfoldable pub generate_random_id : (List ℕ → Bool) → ℕ → ℕ → ℕ × Option (List ℕ)
unfolding attempt_ids
generate_random_id exists out_len state =
    if ltb out_len (entry_id_len + 1) then (state, none) else attempt_ids exists 32 state
