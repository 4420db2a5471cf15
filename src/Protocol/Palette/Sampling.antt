-- ===== src/Protocol/Palette/Sampling.antt =====
-- What a sampled colour has to do with the palette's stops.
use lightnet_firmware.Common.{
  ℕ, ◌+◌, ◌-◌, ◌*◌, ◌/◌, ◌≤◌, ◌<◌, ◌≡◌, ◌⊎◌, inl, inr, refl, sym, Bool-cases, false, ◌||◌, List, [],
  ◌∷◌, ◌==◌, leb, u8, length, arith, All,
}
use mathlib.Core.Path.{subst}
use native.Mathlib.Nat.{mul-le-mul_left}
use lightnet_firmware.Protocol.Color.{ColorRgb, GradientStop}
use lightnet_firmware.Protocol.Palette.{
  stop_color, last_stop, find_segment, blend, sample_segment, sample_palette,
}

-- `b` comes directly after `a`.
abbrev pub AreNeighbours : GradientStop → GradientStop → GradientStop → List GradientStop → Type 0
AreNeighbours a b s [] = ⊥
AreNeighbours a b s (t ∷ rest) = ((a ≡ s) × (b ≡ t)) ⊎ AreNeighbours a b t rest

find_segment-AreNeighbours :
    (pos : ℕ) (s : GradientStop) (rest : List GradientStop)
    → s.pos ≤ pos
    → pos < (last_stop s rest).pos
    → let (a, b) = find_segment pos s rest in
      (a.pos ≤ pos) × (pos < b.pos) × AreNeighbours a b s rest
unfolding find_segment
find_segment-AreNeighbours pos s [] h l = absurd (omega arith)
find_segment-AreNeighbours pos s (t ∷ rest) h l = elim (Bool-cases (leb t.pos pos)) [
  | inl e ↦
      (let (x, y, z) = find_segment-AreNeighbours pos t rest (ground arith) l in
        let q : find_segment pos s (t ∷ rest) ≡ find_segment pos t rest = rw e refl in
        subst
          (λ (o : GradientStop × GradientStop).
            (o.0.pos ≤ pos) × (pos < o.1.pos) × AreNeighbours o.0 o.1 s (t ∷ rest))
          (sym q) (x, y, inr z))
  | inr e ↦
      (let q : find_segment pos s (t ∷ rest) ≡ (s, t) = rw e refl in
        subst
          (λ (o : GradientStop × GradientStop).
            (o.0.pos ≤ pos) × (pos < o.1.pos) × AreNeighbours o.0 o.1 s (t ∷ rest))
          (sym q) (h, ground arith, inl (refl, refl)))
]

part-le : (d f : ℕ) → f ≤ 255 → d * f / 255 ≤ d
part-le d f h = let m : d * f ≤ d * 255 = mul-le-mul_left d h in omega (arith, m)

-- `c` lies between `a` and `b`, whichever is greater.
abbrev pub IsBetween : ℕ → ℕ → ℕ → Type 0
IsBetween a b c = ((a ≤ c) × (c ≤ b)) ⊎ ((b ≤ c) × (c ≤ a))

blend-IsBetween : (a b f : ℕ) → a < 256 → b < 256 → f ≤ 255 → IsBetween a b (blend a b f)
unfolding blend
blend-IsBetween a b f h k l = elim (Bool-cases (leb a b)) [
  | inl e ↦ rw e (inl (ground (arith, part-le (b - a) f l)))
  | inr e ↦ rw e (inr (ground (arith, part-le (a - b) f l)))
]

-- Every number of a stop is a byte.
pub record IsStop (s : GradientStop) : Type 0 where
  pub pos_fits : s.pos < 256
  pub r_fits : s.r < 256
  pub g_fits : s.g < 256
  pub b_fits : s.b < 256

abbrev pub AreBetween : GradientStop → GradientStop → ColorRgb → Type 0
AreBetween a b c = IsBetween a.r b.r c.r × IsBetween a.g b.g c.g × IsBetween a.b b.b c.b

self-AreBetween : (a : GradientStop) → AreBetween a a (stop_color a)
self-AreBetween a = (inl (omega arith), inl (omega arith), inl (omega arith))

segment-AreBetween :
    (pos : ℕ) (a b : GradientStop)
    → IsStop a
    → IsStop b
    → a.pos ≤ pos
    → pos < b.pos
    → AreBetween a b (sample_segment pos a b)
unfolding sample_segment
segment-AreBetween pos a b h k l m =
    let span : u8 (b.pos + 256 - a.pos) ≡ b.pos - a.pos = omega (arith, h.pos_fits, k.pos_fits) in
    let some_span : (b.pos - a.pos == 0) ≡ false = ground arith in
    let f = u8 ((pos - a.pos) * 255 / (b.pos - a.pos)) in
    let f_le : f ≤ 255 = omega arith in
    rw (span, some_span)
      (
        blend-IsBetween a.r b.r f h.r_fits k.r_fits f_le,
        blend-IsBetween a.g b.g f h.g_fits k.g_fits f_le,
        blend-IsBetween a.b b.b f h.b_fits k.b_fits f_le,
      )

neighbours-IsStop :
    (a b s : GradientStop) (rest : List GradientStop)
    → AreNeighbours a b s rest
    → All IsStop (s ∷ rest)
    → IsStop a × IsStop b
neighbours-IsStop a b s [] n h = absurd n
neighbours-IsStop a b s (t ∷ rest) (inl (e, f)) h = (rw e h.0, rw f h.1.0)
neighbours-IsStop a b s (t ∷ rest) (inr n) h = neighbours-IsStop a b t rest n h.1

-- The stops that a sample lies between: two neighbours around the position, or the first or last stop
-- alone.
abbrev pub AreAround : ℕ → GradientStop → GradientStop → GradientStop → List GradientStop → Type 0
AreAround pos a b s rest =
    ((a.pos ≤ pos) × (pos < b.pos) × AreNeighbours a b s rest)
    ⊎ ((b ≡ a) × ((a ≡ s) ⊎ (a ≡ last_stop s rest)))

-- Of a palette of bytes with at least one stop, in whatever order its positions are, every channel
-- of a sample lies between those of two neighbouring stops with the position from the one's on and
-- below the other's, or is the first or last stop's.
pub sample_between :
    (s : GradientStop) (rest : List GradientStop) (pos : ℕ)
    → All IsStop (s ∷ rest)
    → (a : GradientStop) × (b : GradientStop) × AreAround pos a b s rest
      × AreBetween a b (sample_palette (s ∷ rest) pos)
unfolding sample_palette
sample_between s rest pos h = elim (Bool-cases ((length rest == 0) || leb pos s.pos)) [
  | inl e ↦ (s, s, inr (refl, inl refl), rw e (self-AreBetween s))
  | inr e ↦ elim (Bool-cases (leb (last_stop s rest).pos pos)) [
    | inl f ↦
        (let z = last_stop s rest in (z, z, inr (refl, inr refl), rw (e, f) (self-AreBetween z)))
    | inr f ↦
        (let (x, y, n) = find_segment-AreNeighbours pos s rest (ground arith) (ground arith) in
          let (a, b) = find_segment pos s rest in
          let (i, j) = neighbours-IsStop a b s rest n h in
          (a, b, inl (x, y, n), rw (e, f) (segment-AreBetween pos a b i j x y)))
  ]
]
