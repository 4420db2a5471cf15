-- ===== src/Queues/ByteRing/Refinement.antt =====
-- A `ByteRing` is a queue of at most `capacity - 1` bytes.
use lightnet_firmware.Common.{
  ℕ, suc, ◌+◌, ◌-◌, ◌<◌, ◌≡◌, ◌≢◌, refl, ap, ◌∙◌, Bool, true, false, List, [], ◌∷◌, ◌++◌, Option,
  none, some, ◌==◌, ltb, if◌then◌else◌, set, length, arith, length-set, Bool-cases, inl, inr,
  get_or-set_self,
}
use lightnet_firmware.Queues.Positions.{
  next, distance, read, read-set, read-add, advance-distance, length-read,
}
use lightnet_firmware.Queues.ByteRing.{ByteRing, new, push, pop, to_index}

pub record IsValid (capacity : ℕ) (q : ByteRing) : Type 0 where
  pub fits : capacity < 65536
  pub storage : length q.buf ≡ capacity
  pub w_lt : q.w < capacity
  pub r_lt : q.r < capacity

unfoldable pub contents : ℕ → ByteRing → List ℕ
contents capacity q = read capacity q.buf q.r (distance capacity q.r q.w)

-- A bounded queue.
abbrev pub enqueue : ℕ → List ℕ → ℕ → List ℕ × Bool
enqueue bound xs v = if ltb (length xs) bound then (xs ++ v ∷ [], true) else (xs, false)

abbrev pub dequeue : List ℕ → List ℕ × Option ℕ
dequeue [] = ([], none)
dequeue (x ∷ xs) = (xs, some x)

to_index-lt : (capacity p : ℕ) → capacity < 65536 → p < capacity → to_index capacity p ≡ p
unfolding to_index
to_index-lt capacity p h l = ground arith

pub new-IsValid :
    (capacity : ℕ) (memory : List ℕ)
    → 0 < capacity
    → capacity < 65536
    → length memory ≡ capacity
    → IsValid capacity (new memory)
unfolding new
new-IsValid capacity memory p h e = ground arith

pub push-IsValid :
    (capacity : ℕ) (q : ByteRing) (v : ℕ)
    → IsValid capacity q
    → IsValid capacity (push capacity q v).0
unfolding push
push-IsValid capacity q v h =
    ground (arith, to_index-lt capacity (next capacity q.w), length-set q.buf q.w v)

pub pop-IsValid :
    (capacity : ℕ) (q : ByteRing) → IsValid capacity q → IsValid capacity (pop capacity q).0
unfolding pop
pop-IsValid capacity q h = ground (arith, to_index-lt capacity (next capacity q.r))

-- The bytes with one more written at the end.
pub read-push :
    (capacity : ℕ) (b : List ℕ) (r w v : ℕ)
    → r < capacity
    → w < capacity
    → length b ≡ capacity
    → next capacity w ≢ r
    → read capacity (set b w v) r (distance capacity r (next capacity w))
      ≡ read capacity b r (distance capacity r w) ++ v ∷ []
read-push capacity b r w v h k l n =
    let d : distance capacity r (next capacity w) ≡ distance capacity r w + 1 = ground arith in
    let last : read capacity (set b w v) w 1 ≡ v ∷ [] =
      unfold read in ap (λ x. x ∷ []) (get_or-set_self b w v 0 (omega (arith, l))) in
    ap (read capacity (set b w v) r) d
    ∙ read-add capacity (set b w v) r (distance capacity r w) 1
    ∙ rw
        (
          read-set capacity b w v r (distance capacity r w) h k (omega arith),
          advance-distance (distance capacity r w) capacity r w h k refl,
          last,
        )
        refl

-- A push onto a well-formed ring appends its byte and succeeds if fewer than `capacity - 1` are
-- queued, and otherwise fails and leaves the queued bytes as they were.
pub push_enqueues :
    (capacity : ℕ) (q : ByteRing) (v : ℕ)
    → IsValid capacity q
    → let (t, done) = push capacity q v in
      (contents capacity t, done) ≡ enqueue (capacity - 1) (contents capacity q) v
unfolding push contents
push_enqueues capacity q v h = ground (
  arith,
  to_index-lt capacity (next capacity q.w),
  length-read capacity q.buf q.r (distance capacity q.r q.w),
  read-push capacity q.buf q.r q.w v,
)

-- A pop of a well-formed ring returns and removes the oldest byte, or reports that there is none.
pub pop_dequeues :
    (capacity : ℕ) (q : ByteRing)
    → IsValid capacity q
    → let (t, out) = pop capacity q in (contents capacity t, out) ≡ dequeue (contents capacity q)
unfolding pop contents read
pop_dequeues capacity q h = elim (Bool-cases (q.w == q.r)) [
  | inl e ↦ (let z : distance capacity q.r q.w ≡ 0 = ground arith in rw (e, z) refl)
  | inr e ↦
      (let z : distance capacity q.r q.w ≡ suc (distance capacity (next capacity q.r) q.w) =
          ground arith in
        rw (e, z, to_index-lt capacity (next capacity q.r) h.fits (ground (arith, h.r_lt))) refl)
]
