-- ===== src/Panel/AnimationPlayer/Finishing.antt =====
-- What becomes of an animation without a loop: before its onset, while it runs, and from its end on.
use lightnet_firmware.Common.{◌%◌, ◌<◌, ◌≡◌, ◌≢◌, true, false}
use lightnet_firmware.Panel.PlayerState.{Slot, AnimationPlayer}

-- A slot that plays a timed animation which is neither a loop (bit 0 of the flags) nor REACTIVE, and
-- that has not come to its end yet. The times are those of 16-bit members.
pub record PlaysOnce (s : Slot) : Type 0 where
  pub occupied : s.occupied ≡ true
  pub started : s.started ≡ true
  pub unpaused : s.paused ≡ false
  pub running : s.holding ≡ false
  pub once : s.cur.flags % 2 ≡ 0
  pub timed : 0 < s.cur.duration_ms
  pub unreactive : s.cur.anim_type ≢ 8
  pub start_fits : s.cur.start_ms < 65536

abbrev held : Slot → Slot
held s = record s { holding = true }
