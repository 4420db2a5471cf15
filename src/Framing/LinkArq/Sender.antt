-- ===== src/Framing/LinkArq/Sender.antt =====
-- How often a frame goes over a hop.
use lightnet_firmware.Common.{
  ℕ, zero, suc, ◌+◌, ◌≤◌, ◌<◌, ◌≡◌, ◌⊎◌, refl, not, ◌||◌, List, ltb, u16, length, replicate, arith,
  Bool-cases, inl, inr,
}
use lightnet_firmware.Protocol.Crc.{crc16}
use lightnet_firmware.Protocol.Meta.{meta_of, is_link_acked_type}
use lightnet_firmware.Framing.LinkArq.{
  ArqEdgeLink, AckWindow, attempts, send_on_edge, await_link_ack,
}

-- What the attempts leave: `r` retransmissions of the very frame, each counted; a given-up frame is
-- counted too, and only after all of them.
record Attempted (left : ℕ) (l : ArqEdgeLink) (frame : List ℕ) (r : ℕ)
    (out : ArqEdgeLink × List (List ℕ)) : Type 0 where
  pub at_most : r ≤ left
  pub copies : out.1 ≡ replicate r frame
  pub counted : out.0.retransmits ≡ u16 (l.retransmits + r)
  pub given_up :
      (out.0.ack_timeouts ≡ l.ack_timeouts)
      ⊎ ((r ≡ left) × (out.0.ack_timeouts ≡ u16 (l.ack_timeouts + 1)))

attempts-Attempted :
    (window : ℕ → AckWindow) (left n : ℕ) (l : ArqEdgeLink) (crc : ℕ) (frame : List ℕ)
    → l.retransmits < 65536
    → (r : ℕ) × Attempted left l frame r (attempts window left n l crc frame)
unfolding attempts
attempts-Attempted window zero n l crc frame h = (0, ground arith)
attempts-Attempted window (suc left) n l crc frame h =
    elim (Bool-cases (await_link_ack l.ack_matcher crc (window n)).1) [
      | inl e ↦ (0, rw e (ground arith))
      | inr e ↦
          (let (r, a) =
              attempts-Attempted window left (n + 1)
                (record l {
                  ack_matcher = (await_link_ack l.ack_matcher crc (window n)).0;
                  retransmits = u16 (l.retransmits + 1);
                })
                crc frame (omega arith) in
            (suc r, rw e (ground (arith, a))))
    ]

-- A frame goes out unaltered between one and three times, each repetition is counted, and a frame
-- is counted as lost at most once and only after three transmissions.
pub send_on_edge_lem :
    (window : ℕ → AckWindow) (l : ArqEdgeLink) (frame : List ℕ)
    → l.retransmits < 65536
    → let (out, sent) = send_on_edge window l frame in
      (r : ℕ) × (r ≤ 2)
      × (sent ≡ replicate (suc r) frame)
      × (out.retransmits ≡ u16 (l.retransmits + r))
      × ((out.ack_timeouts ≡ l.ack_timeouts)
          ⊎ ((r ≡ 2) × (out.ack_timeouts ≡ u16 (l.ack_timeouts + 1))))
unfolding send_on_edge
send_on_edge_lem window l frame h =
    elim (Bool-cases
      (not (is_link_acked_type (meta_of frame).header.type) || ltb 80 (length frame))) [
        | inl e ↦ (0, omega arith, rw e, rw e (omega arith), rw e (inl refl))
        | inr e ↦
            (let (r, a) = attempts-Attempted window 2 0 l (crc16 frame) frame h in
              (r, a.at_most, rw e (ground (arith, a)), rw e a.counted, rw e a.given_up))
      ]
