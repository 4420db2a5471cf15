-- ===== src/Panel/LightnetPanel/Once.antt =====
-- LightnetPanel::pollBytes on a frame that a neighbour sends again.
use lightnet_firmware.Common.{
  ℕ, ◌<◌, ◌≡◌, refl, ap, true, false, List, [], ◌∷◌, arith, ◌==◌, length, get_or-set_self,
  length-set, sub32,
}
use lightnet_firmware.Protocol.Types.{packet_link_ack}
use lightnet_firmware.Protocol.Crc.{crc16}
use lightnet_firmware.Protocol.Meta.{meta_of, is_link_acked_type}
use lightnet_firmware.Framing.LinkArq.{Entry, LinkDedup, check_and_note, blank}
use lightnet_firmware.Relay.EdgeLink.{send_on_edge}
use lightnet_firmware.Relay.PanelFrameDispatcher
use lightnet_firmware.Panel.LightnetPanel.{
  LightnetPanel, on_frame, dispatch, ack_frame, handle_packet, handle_turn_on_off,
  handle_panel_configuration, handle_animation_start, handle_animation_control,
  handle_animation_update_params, handle_set_palette, handle_enter_bootloader,
}

-- A frame that was noted less than 12 ms before on one of the window's edges is a duplicate.
check_and_note-again :
    (d : LinkDedup) (edge crc t1 t2 : ℕ)
    → edge < length d.entries
    → sub32 t2 t1 < 12
    → (check_and_note (check_and_note d edge crc t1).0 edge crc t2).1 ≡ true
unfolding check_and_note
check_and_note-again d edge crc t1 t2 l h =
    let noted : Entry = record { frame_crc = crc; seen_at_ms = t1; armed = true } in
    ground (arith, length-set d.entries edge noted, get_or-set_self d.entries edge noted blank)

handle_packet-link_dedup :
    (p : LightnetPanel) (frame : List ℕ) (millis : ℕ)
    → (handle_packet p frame millis).0.link_dedup ≡ p.link_dedup
unfolding handle_packet handle_turn_on_off handle_panel_configuration handle_animation_start
    handle_animation_control handle_animation_update_params handle_set_palette
    handle_enter_bootloader
handle_packet-link_dedup p frame millis = ground arith

dispatch-link_dedup :
    (p : LightnetPanel) (from : ℕ) (frame : List ℕ) (now millis : ℕ)
    → (dispatch p from frame now millis).0.link_dedup ≡ p.link_dedup
unfolding dispatch
dispatch-link_dedup p from frame now millis =
    let (d, sent, act) = PanelFrameDispatcher.on_frame_arrived p.driver from frame now in
    ground (
      arith,
      handle_packet-link_dedup (record p { driver = d; last_relay_activity_ms = now }) frame millis,
    )

acked-ne-link_ack : (type : ℕ) → is_link_acked_type type ≡ true → (type == packet_link_ack) ≡ false
unfolding is_link_acked_type
acked-ne-link_ack type h = ground arith

link_dedup-on_frame :
    (p : LightnetPanel) (from : ℕ) (frame : List ℕ) (now millis : ℕ)
    → is_link_acked_type (meta_of frame).header.type ≡ true
    → (on_frame p from frame now millis).0.link_dedup
      ≡ (check_and_note p.link_dedup from (crc16 frame) now).0
unfolding on_frame
link_dedup-on_frame p from frame now millis acked =
    let noted = (check_and_note p.link_dedup from (crc16 frame) now).0 in
    let q = record p { link_dedup = noted; last_relay_activity_ms = now } in
    let plain = acked-ne-link_ack (meta_of frame).header.type acked in
    ground (arith, dispatch-link_dedup q from frame now millis)

on_frame-duplicate :
    (p : LightnetPanel) (from : ℕ) (frame : List ℕ) (now millis : ℕ)
    → is_link_acked_type (meta_of frame).header.type ≡ true
    → (check_and_note p.link_dedup from (crc16 frame) now).1 ≡ true
    → on_frame p from frame now millis ≡ (
      record p {
        link_dedup = (check_and_note p.link_dedup from (crc16 frame) now).0;
        last_relay_activity_ms = now;
      },
      send_on_edge from (ack_frame (crc16 frame)) ∷ [],
    )
unfolding on_frame
on_frame-duplicate p from frame now millis acked again =
    let plain = acked-ne-link_ack (meta_of frame).header.type acked in
    rw (plain, on_frame) (rw (acked, on_frame) (rw (again, on_frame) refl))

-- A frame of an acknowledged type that comes again on the same edge of the window less than 12 ms after
-- is acknowledged again, and that is all: nothing of it is relayed or acted on, and but for the window
-- and the time of the last activity the panel is as the first one left it.
pub on_frame_again :
    (p : LightnetPanel) (from : ℕ) (frame : List ℕ) (now millis now' millis' : ℕ)
    → is_link_acked_type (meta_of frame).header.type ≡ true
    → from < length p.link_dedup.entries
    → sub32 now' now < 12
    → let q = (on_frame p from frame now millis).0 in
      let again = on_frame q from frame now' millis' in
      (again.1 ≡ send_on_edge from (ack_frame (crc16 frame)) ∷ [])
      × (again.0 ≡ record q { link_dedup = again.0.link_dedup; last_relay_activity_ms = now' })
on_frame_again p from frame now millis now' millis' acked l h =
    let q = (on_frame p from frame now millis).0 in
    let seen : (check_and_note q.link_dedup from (crc16 frame) now').1 ≡ true =
      rw (link_dedup-on_frame p from frame now millis acked)
        (check_and_note-again p.link_dedup from (crc16 frame) now now' l h) in
    let e = on_frame-duplicate q from frame now' millis' acked seen in (ap (λ r. r.1) e, rw e refl)
