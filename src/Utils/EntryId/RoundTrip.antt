-- ===== src/Utils/EntryId/RoundTrip.antt =====
-- encodeBase36Lower and its inverse, and the identifiers that are made.
use Prim.Native.Nat.{bit_xor}
use mathlib.Core.Path.{subst}
use lightnet_firmware.Common.{
  ℕ, zero, suc, ◌+◌, ◌-◌, ◌*◌, ◌/◌, ◌%◌, ◌≤◌, ◌<◌, ◌≡◌, refl, ap, sym, ◌∙◌, inl, inr, Bool, true,
  false, Bool-cases, ◌&&◌, List, [], ◌∷◌, Option, none, some, arith, ltb, ◌==◌, if◌then◌else◌,
  length, get_or,
}
use lightnet_firmware.Utils.EntryId.{
  digits, encode_from, encode_base36_lower, fnv1a32, fnv1a32_from, deterministic_id, is_id_char,
  has_id_chars, is_valid_id, random_chars, attempt_ids, generate_random_id,
}

-- The value of a digit.
abbrev pub digit_value : ℕ → ℕ
digit_value c = if ltb c 97 then c - 48 else c - 87

-- The number that a string of digits reads as, after one that read as `value`.
abbrev pub decode_from : ℕ → List ℕ → ℕ
decode_from value [] = value
decode_from value (c ∷ s) = decode_from (value * 36 + digit_value c) s

-- The characters of a table, the first with index `i`, are digits of their index.
abbrev are_digits : ℕ → List ℕ → Bool
are_digits i [] = true
are_digits i (c ∷ cs) = is_id_char c && (digit_value c == i) && are_digits (i + 1) cs

get_or-are_digits :
    (cs : List ℕ) (i k : ℕ)
    → are_digits i cs ≡ true
    → k < length cs
    → (is_id_char (get_or cs k 0) ≡ true) × (digit_value (get_or cs k 0) ≡ i + k)
get_or-are_digits [] i k h l = absurd (omega arith)
get_or-are_digits (c ∷ cs) i zero h l =
    let a : is_id_char c ≡ true = ground arith in
    let b : digit_value c ≡ i + 0 = ground arith in (a, b)
get_or-are_digits (c ∷ cs) i (suc k) h l =
    let rest : are_digits (i + 1) cs ≡ true = ground arith in
    let r = get_or-are_digits cs (i + 1) k rest (omega arith) in (r.0, omega (arith, r.1))

digit_lem :
    (d : ℕ)
    → d < 36
    → (is_id_char (get_or digits d 0) ≡ true) × (digit_value (get_or digits d 0) ≡ d)
digit_lem d l = let r = get_or-are_digits digits 0 d refl l in (r.0, omega (arith, r.1))

-- `n` digits are enough for the value.
abbrev Fits : ℕ → ℕ → Type 0
Fits zero v = v ≡ 0
Fits (suc n) v = Fits n (v / 36)

decode_from-encode_from :
    (n v : ℕ) (out : List ℕ) → Fits n v → decode_from 0 (encode_from v n out) ≡ decode_from v out
unfolding encode_from
decode_from-encode_from zero v out h = ap (λ x. decode_from x out) (sym h)
decode_from-encode_from (suc n) v out h =
    let d = digit_lem (v % 36) (omega arith) in
    decode_from-encode_from n (v / 36) (get_or digits (v % 36) 0 ∷ out) h
    ∙ ap (λ x. decode_from x out) (omega (arith, d.1))

has_id_chars-encode_from :
    (n v : ℕ) (out : List ℕ) → has_id_chars out ≡ true → has_id_chars (encode_from v n out) ≡ true
unfolding encode_from has_id_chars
has_id_chars-encode_from zero v out h = h
has_id_chars-encode_from (suc n) v out h =
    let d = digit_lem (v % 36) (omega arith) in
    has_id_chars-encode_from n (v / 36) (get_or digits (v % 36) 0 ∷ out) (ground (arith, d.0, h))

length-encode_from : (n v : ℕ) (out : List ℕ) → length (encode_from v n out) ≡ n + length out
unfolding encode_from
length-encode_from zero v out = omega arith
length-encode_from (suc n) v out =
    omega (arith, length-encode_from n (v / 36) (get_or digits (v % 36) 0 ∷ out))

fnv1a32_from-lt : (h : ℕ) (s : List ℕ) → h < 4294967296 → fnv1a32_from h s < 4294967296
unfolding fnv1a32_from
fnv1a32_from-lt h [] l = l
fnv1a32_from-lt h (c ∷ s) l = fnv1a32_from-lt (bit_xor h c * 16777619 % 4294967296) s (omega arith)

word-Fits : (v : ℕ) → v < 4294967296 → Fits 8 v
word-Fits v l = omega arith

-- In an array with room for it, the identifier of a seed is valid, and reads, as a number to the base 36,
-- as the seed's hash: so two seeds have the same identifier only where they have the same hash.
pub deterministic_id-decodes :
    (seed : List ℕ) (out_len : ℕ)
    → 9 ≤ out_len
    → (is_valid_id (deterministic_id seed out_len) ≡ true)
      × (decode_from 0 (deterministic_id seed out_len) ≡ fnv1a32 seed)
unfolding deterministic_id encode_base36_lower fnv1a32 is_valid_id
deterministic_id-decodes seed out_len l =
    let room : ltb out_len 9 ≡ false = ground arith in
    let v = fnv1a32 seed in
    let n = length-encode_from 8 v [] in
    let c = has_id_chars-encode_from 8 v [] refl in
    rw (room, deterministic_id)
      (
        ground (arith, n, c),
        decode_from-encode_from 8 v []
            (word-Fits v (fnv1a32_from-lt 2166136261 seed (omega arith))),
      )

has_id_chars-random_chars : (n state : ℕ) → has_id_chars (random_chars n state).1 ≡ true
unfolding random_chars has_id_chars
has_id_chars-random_chars zero state = refl
has_id_chars-random_chars (suc n) state =
    let next = (state * 1664525 + 1013904223) % 4294967296 in
    let d = digit_lem (next % 36) (omega arith) in
    ground (arith, d.0, has_id_chars-random_chars n next)

length-random_chars : (n state : ℕ) → length (random_chars n state).1 ≡ n
unfolding random_chars
length-random_chars zero state = refl
length-random_chars (suc n) state =
    ap suc (length-random_chars n ((state * 1664525 + 1013904223) % 4294967296))

attempt_ids-fresh :
    (exists : List ℕ → Bool) (attempts state : ℕ) (id : List ℕ)
    → (attempt_ids exists attempts state).1 ≡ some id
    → (is_valid_id id ≡ true) × (exists id ≡ false)
unfolding attempt_ids is_valid_id
attempt_ids-fresh exists zero state id e = ground (arith, e)
attempt_ids-fresh exists (suc attempts) state id e =
    let r = random_chars 8 state in
    let n = length-random_chars 8 state in
    let c = has_id_chars-random_chars 8 state in
    elim (Bool-cases (exists r.1)) [
      | inl taken ↦ attempt_ids-fresh exists attempts r.0 id (ground (arith, taken, e))
      | inr free ↦
          let same : r.1 ≡ id = ground (arith, free, e) in
          subst (λ s. (is_valid_id s ≡ true) × (exists s ≡ false)) same (ground (arith, n, c), free)
    ]

not_refused :
    (refused : Bool) (state : ℕ) (r : ℕ × Option (List ℕ)) (id : List ℕ)
    → (if refused then (state, none) else r).1 ≡ some id
    → r.1 ≡ some id
not_refused true state r id e = ground (arith, e)
not_refused false state r id e = e

-- An identifier that is generated, whatever the state, is valid and was not yet there.
pub generate_random_id-fresh :
    (exists : List ℕ → Bool) (out_len state : ℕ) (id : List ℕ)
    → (generate_random_id exists out_len state).1 ≡ some id
    → (is_valid_id id ≡ true) × (exists id ≡ false)
unfolding generate_random_id
generate_random_id-fresh exists out_len state id e =
    attempt_ids-fresh exists 32 state id
      (not_refused (ltb out_len 9) state (attempt_ids exists 32 state) id e)
