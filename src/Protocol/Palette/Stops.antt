-- ===== src/Protocol/Palette/Stops.antt =====
-- The colours of a palette at its own stops.
use lightnet_firmware.Common.{
  ℕ, ◌+◌, ◌-◌, ◌*◌, ◌/◌, ◌<◌, ◌≡◌, ◌⊎◌, inl, inr, refl, ap, sym, Bool-cases, false, List, [], ◌∷◌,
  ◌==◌, leb, u8, length, arith,
}
use lightnet_firmware.Protocol.Color.{GradientStop}
use lightnet_firmware.Protocol.Palette.{
  stop_color, last_stop, find_segment, blend, sample_segment, sample_palette,
}
use lightnet_firmware.Protocol.Palette.Sampling.{IsStop}

-- Strictly increasing positions, as the comment on `samplePalette` asks for.
abbrev pub IsRising : GradientStop → List GradientStop → Type 0
IsRising s [] = Unit
IsRising s (t ∷ rest) = (s.pos < t.pos) × IsRising t rest

-- `a` is `s` or among `rest`.
abbrev pub IsAmong : GradientStop → GradientStop → List GradientStop → Type 0
IsAmong a s [] = a ≡ s
IsAmong a s (t ∷ rest) = (a ≡ s) ⊎ IsAmong a t rest

self-IsAmong : (s : GradientStop) (rest : List GradientStop) → IsAmong s s rest
self-IsAmong s [] = refl
self-IsAmong s (t ∷ rest) = inl refl

among-first :
    (a s : GradientStop) (rest : List GradientStop)
    → IsRising s rest
    → IsAmong a s rest
    → (a ≡ s) ⊎ (s.pos < a.pos)
among-first a s [] r h = inl h
among-first a s (t ∷ rest) r (inl e) = inl e
among-first a s (t ∷ rest) r (inr h) = elim (among-first a t rest r.1 h) [
  | inl e ↦ inr (rw e r.0)
  | inr l ↦ inr (omega (arith, r.0))
]

among-last :
    (a s : GradientStop) (rest : List GradientStop)
    → IsRising s rest
    → IsAmong a s rest
    → (a ≡ last_stop s rest) ⊎ (a.pos < (last_stop s rest).pos)
among-last a s [] r h = inl h
among-last a s (t ∷ rest) r (inl e) = elim (among-last t t rest r.1 (self-IsAmong t rest)) [
  | inl f ↦ inr (rw (e, ← f) r.0)
  | inr l ↦ inr (rw e (omega (arith, r.0)))
]
among-last a s (t ∷ rest) r (inr h) = among-last a t rest r.1 h

-- The search stops at the stop whose position it looks for.
find_segment-at :
    (a s : GradientStop) (rest : List GradientStop)
    → IsRising s rest
    → IsAmong a s rest
    → (find_segment a.pos s rest).0 ≡ a
unfolding find_segment
find_segment-at a s [] r h = sym h
find_segment-at a s (t ∷ rest) r h = elim (Bool-cases (leb t.pos a.pos)) [
  | inl e ↦ rw e (
      find_segment-at a t rest r.1 (elim h [
        | inl f ↦ absurd (ground (arith, r.0, ap (λ (x : GradientStop). x.pos) f))
        | inr k ↦ k
      ]))
  | inr e ↦ rw e (elim h [
    | inl f ↦ sym f
    | inr k ↦ elim (among-first a t rest r.1 k) [
      | inl f ↦ absurd (ground (arith, ap (λ (x : GradientStop). x.pos) f))
      | inr l ↦ absurd (ground arith)
    ]
  ])
]

blend-start : (a b : ℕ) → a < 256 → blend a b 0 ≡ a
unfolding blend
blend-start a b h = ground arith

sample_segment-start : (a b : GradientStop) → IsStop a → sample_segment a.pos a b ≡ stop_color a
unfolding sample_segment
sample_segment-start a b h = elim (Bool-cases (u8 (b.pos + 256 - a.pos) == 0)) [
  | inl e ↦ rw e refl
  | inr e ↦
      (let span = u8 (b.pos + 256 - a.pos) in
        let zero_frac : u8 ((a.pos - a.pos) * 255 / span) ≡ 0 =
          let z : a.pos - a.pos ≡ 0 = omega arith in rw z (omega arith) in
        rw
          (
            e,
            zero_frac,
            blend-start a.r b.r h.r_fits,
            blend-start a.g b.g h.g_fits,
            blend-start a.b b.b h.b_fits,
          )
          refl)
]

-- A palette of bytes with strictly increasing positions has, at the position of each of its stops,
-- exactly that stop's colour.
pub sample_at_stop :
    (a s : GradientStop) (rest : List GradientStop)
    → IsRising s rest
    → IsAmong a s rest
    → IsStop a
    → sample_palette (s ∷ rest) a.pos ≡ stop_color a
unfolding sample_palette
sample_at_stop a s [] r h i = rw h refl
sample_at_stop a s (t ∷ rest) r h i =
    let more : (length (t ∷ rest) == 0) ≡ false = ground arith in
    elim (Bool-cases (leb a.pos s.pos)) [
      | inl e ↦ elim (among-first a s (t ∷ rest) r h) [
        | inl f ↦ rw (more, e) (ap stop_color (sym f))
        | inr l ↦ absurd (ground arith)
      ]
      | inr e ↦ elim (Bool-cases (leb (last_stop t rest).pos a.pos)) [
        | inl f ↦ elim (among-last a s (t ∷ rest) r h) [
          | inl g ↦ rw (more, e, f) (ap stop_color (sym g))
          | inr l ↦ absurd (ground arith)
        ]
        | inr f ↦
            (let (x, y) = find_segment a.pos s (t ∷ rest) in
              let q : x ≡ a = find_segment-at a s (t ∷ rest) r h in
              rw (more, e, f, q) (sample_segment-start a y i))
      ]
    ]
