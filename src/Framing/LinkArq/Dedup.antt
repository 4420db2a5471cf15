-- ===== src/Framing/LinkArq/Dedup.antt =====
-- The duplicate window against the history of sightings.
use lightnet_firmware.Common.{
  ℕ, zero, suc, ◌<◌, ◌≡◌, refl, Bool, true, false, ◌&&◌, List, [], ◌∷◌, ltb, ◌==◌, if◌then◌else◌,
  sub32, length, arith, Bool-cases, inl, inr, get_or, set, length-set, get_or-set_self,
  get_or-set_ne, ap,
}
use lightnet_firmware.Framing.LinkArq.{Entry, LinkDedup, new_dedup, blank, check_and_note}

-- A frame seen on an edge.
pub record Sighting : Type 0 where
  pub edge : ℕ
  pub crc : ℕ
  pub at : ℕ

-- The receiver after a history of sightings, the newest first.
unfoldable pub noted : LinkDedup → List Sighting → LinkDedup
noted d [] = d
noted d (s ∷ ss) = (check_and_note (noted d ss) s.edge s.crc s.at).0

-- The newest sighting on the edge had the same CRC, less than 12 ms ago.
unfoldable pub is_repeat : List Sighting → ℕ → ℕ → ℕ → Bool
is_repeat [] edge crc now = false
is_repeat (s ∷ ss) edge crc now =
    if s.edge == edge then (s.crc == crc) && ltb (sub32 now s.at) 12 else is_repeat ss edge crc now

abbrev pub verdict : Entry → ℕ → ℕ → Bool
verdict e crc now = e.armed && (e.frame_crc == crc) && ltb (sub32 now e.seen_at_ms) 12

length-noted : (d : LinkDedup) (ss : List Sighting) → length (noted d ss).entries ≡ length d.entries
unfolding noted check_and_note
length-noted d [] = refl
length-noted d (s ∷ ss) = ground (
  arith,
  length-noted d ss,
  length-set (noted d ss).entries s.edge
      (record { frame_crc = s.crc; seen_at_ms = s.at; armed = true }),
)

-- An entry holds the newest sighting on its edge.
verdict-noted :
    (d : LinkDedup) (ss : List Sighting) (edge crc now : ℕ)
    → edge < length d.entries
    → (get_or d.entries edge blank).armed ≡ false
    → verdict (get_or (noted d ss).entries edge blank) crc now ≡ is_repeat ss edge crc now
unfolding noted check_and_note is_repeat
verdict-noted d [] edge crc now h a = rw a
verdict-noted d (s ∷ ss) edge crc now h a =
    let e : Entry = record { frame_crc = s.crc; seen_at_ms = s.at; armed = true } in
    elim (Bool-cases (s.edge == edge)) [
      | inl q ↦
          (let r : s.edge ≡ edge = ground arith in
            ground (
              arith,
              length-noted d ss,
              get_or-set_self (noted d ss).entries s.edge e blank,
              ap (λ (i : ℕ). get_or (set (noted d ss).entries s.edge e) i blank) r,
            ))
      | inr q ↦ ground (
        arith,
        verdict-noted d ss edge crc now h a,
        get_or-set_ne (noted d ss).entries s.edge edge e blank,
      )
    ]

new_dedup-disarmed :
    (es : List Entry) (edge : ℕ) → (get_or (new_dedup es).entries edge blank).armed ≡ false
unfolding new_dedup
new_dedup-disarmed [] edge = refl
new_dedup-disarmed (e ∷ es) zero = refl
new_dedup-disarmed (e ∷ es) (suc edge) = new_dedup-disarmed es edge

length-new_dedup : (es : List Entry) → length (new_dedup es).entries ≡ length es
unfolding new_dedup
length-new_dedup [] = refl
length-new_dedup (e ∷ es) = ap suc (length-new_dedup es)

-- After any history of a new duplicate window, a frame on one of its edges is taken for a
-- duplicate exactly if the newest frame noted on that edge had the same CRC, less than 12 ms
-- before; what was noted on other edges does not matter.
pub check_and_note_lem :
    (memory : List Entry) (ss : List Sighting) (edge crc now : ℕ)
    → edge < length memory
    → (check_and_note (noted (new_dedup memory) ss) edge crc now).1 ≡ is_repeat ss edge crc now
unfolding check_and_note
check_and_note_lem memory ss edge crc now h = ground (
  arith,
  length-noted (new_dedup memory) ss,
  length-new_dedup memory,
  verdict-noted (new_dedup memory) ss edge crc now,
  new_dedup-disarmed memory edge,
)
