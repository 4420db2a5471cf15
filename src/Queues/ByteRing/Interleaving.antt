-- ===== src/Queues/ByteRing/Interleaving.antt =====
-- An interrupt that pushes between any two accesses of a pop.
use mathlib.Core.List.{append_assoc}
use lightnet_firmware.Common.{
  false, Option, ℕ, suc, ◌<◌, ◌≡◌, ◌≢◌, refl, ap, ◌∙◌, sym, Bool, Bool-cases, inl, inr, List, [],
  ◌∷◌, ◌++◌, ◌==◌, if◌then◌else◌, get_or, arith, length,
}
use lightnet_firmware.Queues.Positions.{next, distance, read}
use lightnet_firmware.Queues.ByteRing.{ByteRing, new, push, pop, to_index}
use lightnet_firmware.Queues.ByteRing.Refinement.{
  IsValid, contents, new-IsValid, push-IsValid, pop-IsValid, push_enqueues, pop_dequeues,
}

-- Where the consumer stands in `pop`: outside, behind the test for emptiness, or with the byte read
-- but `_r` not yet written.
pub data Phase : Type 0 where
  outside : Phase
  passed : Phase
  holding : ℕ → Phase

-- The ring with the consumer's phase, the bytes accepted from the producer and those that the consumer has been given.
pub record Machine : Type 0 where
  pub ring : ByteRing
  pub phase : Phase
  pub accepted : List ℕ
  pub delivered : List ℕ

-- A whole push by the interrupt, or the consumer's next access.
pub data Step : Type 0 where
  produces : ℕ → Step
  consumes : Step

unfoldable pub consume : ℕ → Machine → Machine
consume capacity m = elim m.phase [
  | outside ↦ (if m.ring.w == m.ring.r then m else record m { phase = passed })
  | passed ↦ record m { phase = holding (get_or m.ring.buf m.ring.r 0) }
  | holding x ↦ record m {
    ring = record m.ring { r = to_index capacity (next capacity m.ring.r) };
    phase = outside;
    delivered = m.delivered ++ x ∷ [];
  }
]

unfoldable pub step : ℕ → Machine → Step → Machine
unfolding consume
step capacity m (produces v) =
    let (q, done) = push capacity m.ring v in
    record m { ring = q; accepted = (if done then m.accepted ++ v ∷ [] else m.accepted) }
step capacity m consumes = consume capacity m

unfoldable pub run : ℕ → Machine → List Step → Machine
run capacity m [] = m
run capacity m (s ∷ ss) = run capacity (step capacity m s) ss

unfoldable pub start : List ℕ → Machine
start memory = record { ring = new memory; phase = outside; accepted = []; delivered = [] }

-- What a phase has seen is still in the ring.
abbrev pub IsSeen : Phase → List ℕ → Type 0
IsSeen outside xs = Unit
IsSeen passed xs = (x : ℕ) × (ys : List ℕ) × (xs ≡ x ∷ ys)
IsSeen (holding x) xs = (ys : List ℕ) × (xs ≡ x ∷ ys)

pub record Inv (capacity : ℕ) (m : Machine) : Type 0 where
  pub valid : IsValid capacity m.ring
  pub fifo : m.accepted ≡ m.delivered ++ contents capacity m.ring
  pub seen : IsSeen m.phase (contents capacity m.ring)

IsSeen-append : (p : Phase) (xs : List ℕ) (v : ℕ) → IsSeen p xs → IsSeen p (xs ++ v ∷ [])
IsSeen-append outside xs v h = tt
IsSeen-append passed xs v (x, ys, e) = (x, ys ++ v ∷ [], ap (λ (l : List ℕ). l ++ v ∷ []) e)
IsSeen-append (holding x) xs v (ys, e) = (ys ++ v ∷ [], ap (λ (l : List ℕ). l ++ v ∷ []) e)

-- The contents of a ring that is not empty start with the byte at `_r`.
contents-front :
    (capacity : ℕ) (q : ByteRing)
    → IsValid capacity q
    → q.w ≢ q.r
    → (ys : List ℕ) × (contents capacity q ≡ get_or q.buf q.r 0 ∷ ys)
unfolding contents read
contents-front capacity q h n =
    let z : distance capacity q.r q.w ≡ suc (distance capacity (next capacity q.r) q.w) =
      ground (arith, h) in
    (read capacity q.buf (next capacity q.r) (distance capacity (next capacity q.r) q.w), rw z refl)

contents-nonempty :
    (capacity : ℕ) (q : ByteRing) (x : ℕ) (ys : List ℕ) → contents capacity q ≡ x ∷ ys → q.w ≢ q.r
unfolding contents read
contents-nonempty capacity q x ys e = λ z.
    let d : distance capacity q.r q.w ≡ 0 = ground arith in
    let f : [] ≡ x ∷ ys = rw d at e in absurd (omega (arith, ap (λ (l : List ℕ). length l) f))

-- The last access of a pop frees the byte read.
freed :
    (capacity : ℕ) (q : ByteRing) (x : ℕ) (ys : List ℕ)
    → IsValid capacity q
    → contents capacity q ≡ x ∷ ys
    → let t = record q { r = to_index capacity (next capacity q.r) } in
      IsValid capacity t × (contents capacity t ≡ ys)
unfolding pop
freed capacity q x ys h e =
    let n = contents-nonempty capacity q x ys e in
    let v = pop-IsValid capacity q h in
    let d = pop_dequeues capacity q h in ground (arith, v, ap (λ (o : List ℕ × Option ℕ). o.0) d)

consume_at-Inv :
    (capacity : ℕ) (q : ByteRing) (p : Phase) (a d : List ℕ)
    → IsValid capacity q
    → a ≡ d ++ contents capacity q
    → IsSeen p (contents capacity q)
    → Inv capacity (consume capacity (record { ring = q; phase = p; accepted = a; delivered = d }))
unfolding consume
consume_at-Inv capacity q outside a d v f s = elim (Bool-cases (q.w == q.r)) [
  | inl e ↦ rw e (record { valid = v; fifo = f; seen = tt })
  | inr e ↦
      (let (ys, c) = contents-front capacity q v (ground arith) in
        rw e (record { valid = v; fifo = f; seen = (get_or q.buf q.r 0, ys, c) }))
]
consume_at-Inv capacity q passed a d v f (x, ys, e) = record {
  valid = v;
  fifo = f;
  seen = contents-front capacity q v (contents-nonempty capacity q x ys e);
}
consume_at-Inv capacity q (holding x) a d v f (ys, e) =
    let (w, c) = freed capacity q x ys v e in
    record { valid = w; fifo = f ∙ rw (e, c) (sym (append_assoc d (x ∷ []) ys)); seen = tt }

step-Inv :
    (capacity : ℕ) (m : Machine) (s : Step) → Inv capacity m → Inv capacity (step capacity m s)
unfolding step
step-Inv capacity m (produces v) h =
    let p1 = ap (λ (o : List ℕ × Bool). o.0) (push_enqueues capacity m.ring v h.valid) in
    let p2 = ap (λ (o : List ℕ × Bool). o.1) (push_enqueues capacity m.ring v h.valid) in
    record {
      valid = push-IsValid capacity m.ring v h.valid;
      fifo =
          ground
            (arith, p1, p2, h.fifo, append_assoc m.delivered (contents capacity m.ring) (v ∷ []));
      seen = ground (arith, p1, IsSeen-append m.phase (contents capacity m.ring) v h.seen);
    }
step-Inv capacity m consumes h =
    consume_at-Inv capacity m.ring m.phase m.accepted m.delivered h.valid h.fifo h.seen

run-Inv :
    (capacity : ℕ) (ss : List Step) (m : Machine)
    → Inv capacity m
    → Inv capacity (run capacity m ss)
unfolding run
run-Inv capacity [] m h = h
run-Inv capacity (s ∷ ss) m h = run-Inv capacity ss (step capacity m s) (step-Inv capacity m s h)

-- However whole pushes fall between the accesses of the pops of a new ring, the bytes that the
-- consumer has been given, followed by those still queued, are exactly the bytes accepted from the
-- producer, in order.
pub interleaved_fifo :
    (capacity : ℕ) (memory : List ℕ) (ss : List Step)
    → 0 < capacity
    → capacity < 65536
    → length memory ≡ capacity
    → let m = run capacity (start memory) ss in m.accepted ≡ m.delivered ++ contents capacity m.ring
unfolding start
interleaved_fifo capacity memory ss p f e =
    let v = new-IsValid capacity memory p f e in
    let none_yet : contents capacity (new memory) ≡ [] = unfold contents new read in refl in
    (run-Inv capacity ss (start memory) (record { valid = v; fifo = sym none_yet; seen = tt })).fifo

-- Without a push between them, the accesses are those of one `pop`.
uninterrupted-pop :
    (capacity : ℕ) (q : ByteRing) (a d : List ℕ)
    → q.w ≢ q.r
    → run capacity
        (record { ring = q; phase = outside; accepted = a; delivered = d })
        (consumes ∷ consumes ∷ consumes ∷ [])
      ≡ record {
        ring = (pop capacity q).0;
        phase = outside;
        accepted = a;
        delivered = d ++ get_or q.buf q.r 0 ∷ [];
      }
unfolding run step consume pop
uninterrupted-pop capacity q a d n = let e : (q.w == q.r) ≡ false = ground arith in rw e refl
