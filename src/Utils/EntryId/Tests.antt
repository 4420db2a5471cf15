-- ===== src/Utils/EntryId/Tests.antt =====
-- A seed and a state on which the theorems about identifiers apply.
use lightnet_firmware.Common.{ℕ, ◌≡◌, refl, arith, Bool, true, false, List, [], ◌∷◌}
use lightnet_firmware.Utils.EntryId.{
  fnv1a32, deterministic_id, is_valid_id, random_chars, attempt_ids, generate_random_id,
}
use lightnet_firmware.Utils.EntryId.RoundTrip.{
  decode_from, deterministic_id-decodes, generate_random_id-fresh,
}

-- "ab"
abbrev seed : List ℕ
seed = 97 ∷ 98 ∷ []

deterministic_id-decodes_example :
    (is_valid_id (deterministic_id seed 9) ≡ true)
    × (decode_from 0 (deterministic_id seed 9) ≡ fnv1a32 seed)
deterministic_id-decodes_example = deterministic_id-decodes seed 9 (omega arith)

-- No identifier is taken.
abbrev vacant : List ℕ → Bool
vacant id = false

-- The first identifier after the initial state.
abbrev first_id : List ℕ
first_id = (random_chars 8 0xA5A5A5A5).1

generate_random_id-fresh_example : (is_valid_id first_id ≡ true) × (vacant first_id ≡ false)
unfolding generate_random_id attempt_ids
generate_random_id-fresh_example = generate_random_id-fresh vacant 9 0xA5A5A5A5 first_id refl
