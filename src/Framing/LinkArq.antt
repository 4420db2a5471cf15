-- ===== src/Framing/LinkArq.antt =====
-- lib/Lightnet/Core/Relay/LinkArq.{hpp,cpp} and the sender of lib/Lightnet/Panel/ArqEdgeLink.cpp: hop
-- acknowledgments, duplicate suppression and retransmission.
pub mod Sender
pub mod Dedup
pub mod Matcher
pub mod Window
use lightnet_firmware.Common.{
  ℕ, zero, suc, ◌+◌, ◌-◌, ◌%◌, Bool, true, false, not, ◌&&◌, ◌||◌, List, [], ◌∷◌, ◌++◌, Option,
  none, some, ltb, leb, ◌==◌, ◌!=◌, if◌then◌else◌, set, get_or, take, u8, u16, sub32, length,
  replicate,
}
use lightnet_firmware.Protocol.Types.{packet_link_ack, max_packet_size}
use lightnet_firmware.Protocol.Crc.{crc16}
use lightnet_firmware.Protocol.Meta.{meta_of, validate_packet, sizeof_link_ack, is_link_acked_type}
use lightnet_firmware.Protocol.Discovery.{link_ack_of}

abbrev pub link_ack_timeout_ms : ℕ
link_ack_timeout_ms = 4

abbrev pub link_retransmits : ℕ
link_retransmits = 2

abbrev pub link_dedup_window_ms : ℕ
link_dedup_window_ms = 12

-- `buffer` is the array of `sizeof(PacketLinkAck)` bytes.
pub record LinkAckMatcher : Type 0 where
  pub buffer : List ℕ
  pub filled : ℕ

unfoldable pub new_matcher : List ℕ → LinkAckMatcher
new_matcher memory = record { buffer = memory; filled = 0 }

unfoldable pub reset : LinkAckMatcher → LinkAckMatcher
reset m = record m { filled = 0 }

-- `pushByte`: the echoed CRC goes out where it returns true.
unfoldable pub push_byte : LinkAckMatcher → ℕ → LinkAckMatcher × Option ℕ
push_byte m value =
    if (m.filled == 0) && (value != packet_link_ack)
    then (m, none)
    else (let b = set m.buffer m.filled value in
        if ltb (u8 (m.filled + 1)) sizeof_link_ack
        then (record { buffer = b; filled = u8 (m.filled + 1) }, none)
        else if validate_packet (link_ack_of b).meta sizeof_link_ack false != 0
        then (record { buffer = b; filled = 0 }, none)
        else (record { buffer = b; filled = 0 }, some (link_ack_of b).frame_crc))

-- `pushByte(..., &ackedCrc) && ackedCrc == frameCrc`.
abbrev pub is_ack : ℕ → Option ℕ → Bool
is_ack crc none = false
is_ack crc (some c) = c == crc

-- `LinkDedup<EdgeCount>::Entry`.
pub record Entry : Type 0 where
  pub frame_crc : ℕ
  pub seen_at_ms : ℕ
  pub armed : Bool

-- `entries` is the array of EdgeCount entries.
pub record LinkDedup : Type 0 where
  pub entries : List Entry

-- The constructor only disarms the entries.
unfoldable pub new_dedup : List Entry → LinkDedup
new_dedup [] = record { entries = [] }
new_dedup (e ∷ es) = record { entries = record e { armed = false } ∷ (new_dedup es).entries }

abbrev pub blank : Entry
blank = record { frame_crc = 0; seen_at_ms = 0; armed = false }

unfoldable pub check_and_note : LinkDedup → ℕ → ℕ → ℕ → LinkDedup × Bool
check_and_note d edge crc now =
    if leb (length d.entries) edge
    then (d, false)
    else (let entry = get_or d.entries edge blank in
        (
          record {
            entries =
                set d.entries edge (record { frame_crc = crc; seen_at_ms = now; armed = true });
          },
          entry.armed
              && (entry.frame_crc == crc)
              && ltb (sub32 now entry.seen_at_ms) link_dedup_window_ms,
        ))

-- A poll of the loop of `awaitLinkAck`: the time read by its test, and the byte that the transport
-- had, if any.
abbrev pub Poll : Type 0
Poll = ℕ × Option ℕ

-- The loop of `awaitLinkAck` over the polls that the hardware gives. A list that ends before the
-- timeout stands for a clock that has stopped; it counts as no acknowledgment.
unfoldable pub await_loop : LinkAckMatcher → ℕ → ℕ → List Poll → LinkAckMatcher × Bool
unfolding push_byte
await_loop m crc start [] = (m, false)
await_loop m crc start ((now, none) ∷ ps) =
    let rest = await_loop m crc start ps in
    if ltb (sub32 now start) link_ack_timeout_ms then rest else (m, false)
await_loop m crc start ((now, some v) ∷ ps) =
    let n = push_byte m v in
    let rest = await_loop n.0 crc start ps in
    if ltb (sub32 now start) link_ack_timeout_ms
    then (if is_ack crc n.1 then (n.0, true) else rest)
    else (m, false)

-- One window: the time at which it starts, and its polls.
abbrev pub AckWindow : Type 0
AckWindow = ℕ × List Poll

unfoldable pub await_link_ack : LinkAckMatcher → ℕ → AckWindow → LinkAckMatcher × Bool
unfolding await_loop reset
await_link_ack m crc (start, polls) = await_loop (reset m) crc start polls

pub record ArqEdgeLink : Type 0 where
  pub ack_matcher : LinkAckMatcher
  pub retransmits : ℕ
  pub ack_timeouts : ℕ

-- The loop over the attempts, with `left` of the LINK_RETRANSMITS left and `window n` what the
-- hardware gives in the window of attempt `n`; it returns the retransmissions.
unfoldable pub attempts :
    (ℕ → AckWindow) → ℕ → ℕ → ArqEdgeLink → ℕ → List ℕ → ArqEdgeLink × List (List ℕ)
unfolding await_link_ack
attempts window zero n l crc frame =
    let w = await_link_ack l.ack_matcher crc (window n) in
    if w.1
    then (record l { ack_matcher = w.0 }, [])
    else (record l { ack_matcher = w.0; ack_timeouts = u16 (l.ack_timeouts + 1) }, [])
attempts window (suc left) n l crc frame =
    let w = await_link_ack l.ack_matcher crc (window n) in
    let rest =
      attempts window left (n + 1)
        (record l { ack_matcher = w.0; retransmits = u16 (l.retransmits + 1) }) crc frame in
    if w.1 then (record l { ack_matcher = w.0 }, []) else (rest.0, frame ∷ rest.1)

-- `sendOnEdge`: the transmissions of the frame, in order.
unfoldable pub send_on_edge : (ℕ → AckWindow) → ArqEdgeLink → List ℕ → ArqEdgeLink × List (List ℕ)
unfolding attempts
send_on_edge window l frame =
    if not (is_link_acked_type (meta_of frame).header.type) || ltb max_packet_size (length frame)
    then (l, frame ∷ [])
    else (let r = attempts window link_retransmits 0 l (crc16 frame) frame in (r.0, frame ∷ r.1))
