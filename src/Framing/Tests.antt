-- ===== src/Framing/Tests.antt =====
-- Concrete frames, receivers and windows on which the theorems about the framing apply.
use lightnet_firmware.Common.{
  ℕ, suc, ◌+◌, ◌≤◌, ◌≡◌, ◌≢◌, ◌⊎◌, refl, inl, inr, Bool, true, false, List, [], ◌∷◌, ◌++◌, none,
  some, arith, replicate, u16, map, take, drop, ◌*◌,
}
use lightnet_firmware.Protocol.Types.{packet_discovery_done}
use lightnet_firmware.Protocol.Meta.{make_meta, validate_packet, packet_size_for_type}
use lightnet_firmware.Protocol.Validation.{validate_packet-make_meta}
use lightnet_firmware.Protocol.Discovery.{discovery_done_bytes}
use lightnet_firmware.Framing.PacketFramer
use lightnet_firmware.Framing.PacketFramer.{PacketFramer}
use lightnet_firmware.Framing.PacketFramer.Invariant.{IsComplete, push_byte-IsComplete}
use lightnet_firmware.Framing.PacketFramer.Invariant as Framed
use lightnet_firmware.Framing.PacketFramer.Spec.{take_byte}
use lightnet_firmware.Framing.PacketFramer.Refinement.{push_byte_refines}
use lightnet_firmware.Framing.PacketFramer.Stream.{receive, wire, receive-wire, IsFrame}
use lightnet_firmware.Framing.PacketFramer.Boundary.{new-IsValid}
use lightnet_firmware.Framing.TrunkFrameReceiver.{TrunkFrameReceiver}
use lightnet_firmware.Framing.TrunkFrameReceiver.Recovery.{receive_at, receive_at_after_gap}
use lightnet_firmware.Framing.EdgeFrameReceiver.{EdgeFrameReceiver, on_byte, tick, no_edge}
use lightnet_firmware.Framing.EdgeFrameReceiver.Claims.{
  Inv, AtBoundary, preempt, step, step-Inv, on_byte_reports, tick_releases,
}
use lightnet_firmware.Framing.LinkArq.{
  blank, new_dedup, check_and_note, LinkAckMatcher, await_link_ack, Poll, ArqEdgeLink, AckWindow,
  send_on_edge,
}
use lightnet_firmware.Framing.LinkArq.Sender.{send_on_edge_lem}
use lightnet_firmware.Framing.LinkArq.Dedup.{Sighting, noted, is_repeat, check_and_note_lem}
use lightnet_firmware.Framing.LinkArq.Matcher.{ack_frame, IsValid}
use lightnet_firmware.Framing.LinkArq.Window.{await_link_ack_hears, AreTimely}

-- The frame by which panel 3 reports its subtree.
abbrev done_of_3 : List ℕ
done_of_3 =
    discovery_done_bytes (record { meta = make_meta packet_discovery_done 0; panel_index = 3 })

done_of_3-IsFrame : (c : Bool) → IsFrame c done_of_3
done_of_3-IsFrame c = record {
  nonempty = omega arith;
  sized = unfold make_meta packet_size_for_type in refl;
  checked =
      validate_packet-make_meta packet_discovery_done 0 9 (3 ∷ 0 ∷ []) c (omega arith) (omega arith)
        (omega arith);
}

abbrev framer : PacketFramer
framer = PacketFramer.new (replicate 80 170) true

framer-IsValid : Framed.IsValid framer
framer-IsValid = new-IsValid (replicate 80 170) true refl

receive-wire_example :
    receive framer (wire (((170 ∷ 255 ∷ []), done_of_3) ∷ ([], done_of_3) ∷ []))
    ≡ done_of_3 ∷ done_of_3 ∷ []
unfolding PacketFramer.new packet_size_for_type
receive-wire_example =
    receive-wire framer (((170 ∷ 255 ∷ []), done_of_3) ∷ ([], done_of_3) ∷ []) framer-IsValid
      (inl refl) (((refl, (refl, tt)), done_of_3-IsFrame true), ((tt, done_of_3-IsFrame true), tt))

push_byte_refines_example :
    let (g, done) = PacketFramer.push_byte framer 22 in
    (PacketFramer.frame g, done) ≡ take_byte true (PacketFramer.frame framer) 22
unfolding PacketFramer.new
push_byte_refines_example = push_byte_refines framer 22 framer-IsValid

-- All of the frame but its last byte has arrived.
abbrev nearly : PacketFramer
nearly = record {
  buffer = take 8 done_of_3 ++ replicate 72 170;
  filled = 8;
  expected_size = 9;
  validate_protocol_version = true;
}

nearly-IsValid : Framed.IsValid nearly
unfolding packet_size_for_type make_meta
nearly-IsValid = record {
  storage = refl;
  filled_le = omega arith;
  expected_le = omega arith;
  typed = λ _. refl;
}

nearly-reports : (PacketFramer.push_byte nearly 0).1 ≡ true
unfolding PacketFramer.push_byte PacketFramer.push_fresh PacketFramer.accumulate validate_packet
    packet_size_for_type make_meta
nearly-reports =
    ground (arith, validate_packet-make_meta packet_discovery_done 0 9 (3 ∷ 0 ∷ []) true)

-- Stale bytes of a frame that stalled at 100 ms.
abbrev stalled : TrunkFrameReceiver
stalled = record { framer = nearly; last_byte_ms = 100 }

-- One byte a millisecond.
abbrev each_ms : ℕ → List ℕ → List (ℕ × ℕ)
each_ms t [] = []
each_ms t (b ∷ bs) = (b, t) ∷ each_ms (suc t) bs

abbrev timed : List (ℕ × ℕ)
timed = each_ms 111 (drop 1 done_of_3)

receive_at_after_gap_example :
    receive_at stalled ((24, 110) ∷ timed) ≡ (24 ∷ map (λ c. c.0) timed) ∷ []
unfolding make_meta
receive_at_after_gap_example =
    receive_at_after_gap stalled 24 110 timed nearly-IsValid (inl (omega arith))
      (
        omega arith,
        (
          omega arith,
          (
            omega arith,
            (omega arith, (omega arith, (omega arith, (omega arith, (omega arith, tt))))),
          ),
        ),
      )
      (done_of_3-IsFrame true)

-- Edge 2 holds the claim.
abbrev claimed : EdgeFrameReceiver
claimed = record {
  framer = nearly;
  active_edge = 2;
  completed_edge = no_edge;
  last_activity_ms = 100;
  claim_start_ms = 95;
}

claimed-Inv : Inv claimed
claimed-Inv = record { framed = nearly-IsValid; clean = λ e. ground arith }

claimed-reports : (on_byte claimed 0 101).1 ≡ true
unfolding on_byte
claimed-reports = ground (arith, nearly-reports)

on_byte_reports_example :
    let s = (on_byte claimed 0 101).0 in
    (2 ≢ no_edge) × (s.completed_edge ≡ 2) × (s.active_edge ≡ no_edge) × IsComplete s.framer
on_byte_reports_example = on_byte_reports claimed 0 101 claimed-Inv claimed-reports

tick_releases_example :
    ((tick claimed 195).active_edge ≡ no_edge)
    × (PacketFramer.has_partial_frame (tick claimed 195).framer ≡ false)
tick_releases_example = tick_releases claimed 195 (inr (omega arith)) claimed-Inv

step-Inv_example :
    Inv (step claimed (preempt 1 102)) × AtBoundary claimed (step claimed (preempt 1 102))
step-Inv_example = step-Inv claimed (preempt 1 102) claimed-Inv

abbrev link : ArqEdgeLink
link = record {
  ack_matcher = record { buffer = replicate 9 0; filled = 0 };
  retransmits = 65535;
  ack_timeouts = 7;
}

-- Windows in which nothing is heard.
abbrev silence : ℕ → AckWindow
silence n = (10 * n, (10 * n, none) ∷ (10 * n + 4, none) ∷ [])

send_on_edge_lem_example :
    let (out, sent) = send_on_edge silence link done_of_3 in
    (r : ℕ) × (r ≤ 2)
    × (sent ≡ replicate (suc r) done_of_3)
    × (out.retransmits ≡ u16 (65535 + r))
    × ((out.ack_timeouts ≡ 7) ⊎ ((r ≡ 2) × (out.ack_timeouts ≡ u16 8)))
send_on_edge_lem_example = send_on_edge_lem silence link done_of_3 (omega arith)

abbrev history : List Sighting
history = record { edge = 1; crc = 500; at = 30 } ∷ record { edge = 0; crc = 900; at = 25 } ∷ []

check_and_note_lem_example :
    (check_and_note (noted (new_dedup (blank ∷ blank ∷ [])) history) 0 900 36).1
    ≡ is_repeat history 0 900 36
check_and_note_lem_example = check_and_note_lem (blank ∷ blank ∷ []) history 0 900 36 (omega arith)

abbrev matcher : LinkAckMatcher
matcher = record { buffer = replicate 9 0; filled = 0 }

matcher-IsValid : IsValid matcher
matcher-IsValid = record { storage = refl; filled_lt = omega arith }

-- Noise, then the acknowledgment, all read at 41 ms.
abbrev heard : List ℕ → List Poll
heard [] = []
heard (b ∷ bs) = (41, some b) ∷ heard bs

heard-AreTimely : (bs : List ℕ) → AreTimely 40 (heard bs)
heard-AreTimely [] = tt
heard-AreTimely (b ∷ bs) = (omega arith, heard-AreTimely bs)

await_link_ack_hears_example :
    (await_link_ack matcher 700 (40, (40, none) ∷ heard ((7 ∷ []) ++ ack_frame 700))).1 ≡ true
unfolding make_meta
await_link_ack_hears_example =
    await_link_ack_hears matcher 700 40 ((40, none) ∷ heard ((7 ∷ []) ++ ack_frame 700)) (7 ∷ [])
      matcher-IsValid (omega arith) (omega arith, heard-AreTimely ((7 ∷ []) ++ ack_frame 700))
      ((λ e. ground arith), tt) refl
