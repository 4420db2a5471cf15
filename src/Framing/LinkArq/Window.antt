-- ===== src/Framing/LinkArq/Window.antt =====
-- The acknowledgment window of a sender.
use mathlib.Core.List.{append-nil}
use lightnet_firmware.Common.{
  ℕ, ◌<◌, ◌≡◌, refl, ◌∙◌, Bool, true, false, List, [], ◌∷◌, ◌++◌, none, some, ◌==◌, if◌then◌else◌,
  sub32, arith, All, ap,
}
use lightnet_firmware.Framing.LinkArq.{
  LinkAckMatcher, Poll, push_byte, await_loop, await_link_ack, reset,
}
use lightnet_firmware.Framing.LinkArq.Matcher.{acks, acks_finds, ack_frame, IsNoise, IsValid}

-- The bytes that the transport had, in order.
abbrev pub poll_bytes : List Poll → List ℕ
poll_bytes [] = []
poll_bytes ((t, none) ∷ ps) = poll_bytes ps
poll_bytes ((t, some v) ∷ ps) = v ∷ poll_bytes ps

-- All polls lie within the timeout.
abbrev pub AreTimely : ℕ → List Poll → Type 0
AreTimely start = All λ p. sub32 p.0 start < 4

abbrev pub has_ack : ℕ → List ℕ → Bool
has_ack crc [] = false
has_ack crc (c ∷ cs) = if c == crc then true else has_ack crc cs

-- Within the timeout, the window hears exactly the acknowledgments that its bytes bring.
await_loop-eq-has_ack :
    (m : LinkAckMatcher) (crc start : ℕ) (ps : List Poll)
    → AreTimely start ps
    → (await_loop m crc start ps).1 ≡ has_ack crc (acks m (poll_bytes ps))
unfolding await_loop acks
await_loop-eq-has_ack m crc start [] h = refl
await_loop-eq-has_ack m crc start ((t, none) ∷ ps) h =
    ground (arith, h.0, await_loop-eq-has_ack m crc start ps h.1)
await_loop-eq-has_ack m crc start ((t, some v) ∷ ps) h =
    ground (arith, h.0, await_loop-eq-has_ack (push_byte m v).0 crc start ps h.1)

-- A well-formed sender whose polls, all within the timeout, bring bytes that are no LINK_ACK type
-- and then the acknowledgment of its frame's CRC, hears it.
pub await_link_ack_hears :
    (m : LinkAckMatcher) (crc start : ℕ) (ps : List Poll) (ns : List ℕ)
    → IsValid m
    → crc < 65536
    → AreTimely start ps
    → IsNoise ns
    → poll_bytes ps ≡ ns ++ ack_frame crc
    → (await_link_ack m crc (start, ps)).1 ≡ true
unfolding await_link_ack reset
await_link_ack_hears m crc start ps ns h c t k e =
    let r : LinkAckMatcher = record m { filled = 0 } in
    let (n, j, z, q) = acks_finds r ns [] crc (omega arith) refl c k in
    ground (
      arith,
      await_loop-eq-has_ack r crc start ps t,
      ap (acks r) e,
      append-nil (ack_frame crc),
      ap (λ (x : List ℕ). acks r (ns ++ x)) (append-nil (ack_frame crc)),
      q,
    )

-- Bytes in which no acknowledgment with the frame's CRC passes the check are no acknowledgment.
pub await_link_ack_deaf :
    (m : LinkAckMatcher) (crc start : ℕ) (ps : List Poll)
    → AreTimely start ps
    → has_ack crc (acks (reset m) (poll_bytes ps)) ≡ false
    → (await_link_ack m crc (start, ps)).1 ≡ false
unfolding await_link_ack
await_link_ack_deaf m crc start ps t e = await_loop-eq-has_ack (reset m) crc start ps t ∙ e
