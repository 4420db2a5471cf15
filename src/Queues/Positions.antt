-- ===== src/Queues/Positions.antt =====
-- Positions in a ring of `capacity` bytes, as both queues move them: `(p + 1 == CapacityBytes) ? 0 : p + 1`.
use native.Mathlib.Nat.{suc-add}
use lightnet_firmware.Common.{
  ℕ, zero, suc, ◌+◌, ◌-◌, ◌≤◌, ◌<◌, ◌≡◌, refl, ap, List, [], ◌∷◌, ◌++◌, ◌==◌, leb, if◌then◌else◌,
  get_or, set, length, arith, get_or-set_ne,
}

abbrev pub next : ℕ → ℕ → ℕ
next capacity p = if p + 1 == capacity then 0 else p + 1

-- How many bytes lie from `p` up to `q`: `(w >= r) ? w - r : CapacityBytes - r + w`.
abbrev pub distance : ℕ → ℕ → ℕ → ℕ
distance capacity p q = if leb p q then q - p else capacity - p + q

-- The `n` bytes from `p` on.
unfoldable pub read : ℕ → List ℕ → ℕ → ℕ → List ℕ
read capacity b p zero = []
read capacity b p (suc n) = get_or b p 0 ∷ read capacity b (next capacity p) n

unfoldable pub advance : ℕ → ℕ → ℕ → ℕ
advance capacity p zero = p
advance capacity p (suc n) = advance capacity (next capacity p) n

-- A write does not touch the bytes before it.
pub read-set :
    (capacity : ℕ) (b : List ℕ) (w v p n : ℕ)
    → p < capacity
    → w < capacity
    → n ≤ distance capacity p w
    → read capacity (set b w v) p n ≡ read capacity b p n
unfolding read
read-set capacity b w v p zero h k l = refl
read-set capacity b w v p (suc n) h k l =
    ground (arith, read-set capacity b w v (next capacity p) n, get_or-set_ne b w p v 0)

pub read-add :
    (capacity : ℕ) (b : List ℕ) (p m n : ℕ)
    → read capacity b p (m + n) ≡ read capacity b p m ++ read capacity b (advance capacity p m) n
unfolding read advance
read-add capacity b p zero n = ap (read capacity b p) (omega arith)
read-add capacity b p (suc m) n =
    rw suc-add (ap (◌∷◌ (get_or b p 0)) (read-add capacity b (next capacity p) m n))

-- As many steps as the distance lead there.
pub advance-distance :
    (n capacity p q : ℕ)
    → p < capacity
    → q < capacity
    → n ≡ distance capacity p q
    → advance capacity p n ≡ q
unfolding advance
advance-distance zero capacity p q h k e = ground arith
advance-distance (suc n) capacity p q h k e =
    advance-distance n capacity (next capacity p) q (ground arith) k (ground arith)

pub length-read : (capacity : ℕ) (b : List ℕ) (p n : ℕ) → length (read capacity b p n) ≡ n
unfolding read
length-read capacity b p zero = refl
length-read capacity b p (suc n) = ap suc (length-read capacity b (next capacity p) n)

-- Steps up to the distance bring it down by as many.
pub distance-advance :
    (n capacity p q : ℕ)
    → p < capacity
    → q < capacity
    → n ≤ distance capacity p q
    → (advance capacity p n < capacity)
      × (distance capacity (advance capacity p n) q + n ≡ distance capacity p q)
unfolding advance
distance-advance zero capacity p q h k l = (h, omega arith)
distance-advance (suc n) capacity p q h k l =
    let (a, b) = distance-advance n capacity (next capacity p) q (ground arith) k (ground arith) in
    (a, ground (arith, b))

pub distance-lt :
    (capacity p q : ℕ) → p < capacity → q < capacity → distance capacity p q < capacity
distance-lt capacity p q h k = ground arith
