-- ===== src/Queues/Tests.antt =====
-- Small queues on which the theorems about them apply.
use lightnet_firmware.Common.{◌≡◌, refl, arith, [], ◌∷◌, ◌++◌, take, if◌then◌else◌}
use lightnet_firmware.Queues.Positions.{read}
use lightnet_firmware.Queues.ByteRing.Refinement.{contents}
use lightnet_firmware.Queues.ByteRing.Interleaving.{
  start, run, produces, consumes, interleaved_fifo,
}
use lightnet_firmware.Queues.SpscByteQueue
use lightnet_firmware.Queues.SpscByteQueue.{SpscByteQueue}
use lightnet_firmware.Queues.SpscByteQueue.Refinement.{
  Holds, encode, has_room, push_appends, pop_takes_first,
}

interleaved_fifo_example :
    let m =
      run 3
        (start (0 ∷ 0 ∷ 0 ∷ []))
        (produces 5 ∷ consumes ∷ produces 6 ∷ consumes ∷ produces 7 ∷ consumes ∷ produces 8 ∷ []) in
    m.accepted ≡ m.delivered ++ contents 3 m.ring
interleaved_fifo_example =
    interleaved_fifo 3 (0 ∷ 0 ∷ 0 ∷ [])
      (produces 5 ∷ consumes ∷ produces 6 ∷ consumes ∷ produces 7 ∷ consumes ∷ produces 8 ∷ [])
      (omega arith) (omega arith) refl

-- One record of two bytes, round the end of eight.
abbrev queued : SpscByteQueue
queued = record { buf = 41 ∷ 0 ∷ 0 ∷ 0 ∷ 0 ∷ 2 ∷ 0 ∷ 40 ∷ []; w = 1; r = 5 }

queued-Holds : Holds 8 queued ((40 ∷ 41 ∷ []) ∷ [])
unfolding read encode
queued-Holds = record {
  fits = omega arith;
  storage = refl;
  w_lt = omega arith;
  r_lt = omega arith;
  bytes = refl;
  records = ((omega arith, omega arith), tt);
}

push_appends_example :
    ((SpscByteQueue.push 8 queued (77 ∷ [])).1 ≡ has_room 8 ((40 ∷ 41 ∷ []) ∷ []) (77 ∷ []))
    × Holds 8 (SpscByteQueue.push 8 queued (77 ∷ [])).0 (
        if has_room 8 ((40 ∷ 41 ∷ []) ∷ []) (77 ∷ [])
        then (40 ∷ 41 ∷ []) ∷ (77 ∷ []) ∷ []
        else (40 ∷ 41 ∷ []) ∷ [])
push_appends_example =
    push_appends 8 queued ((40 ∷ 41 ∷ []) ∷ []) (77 ∷ []) queued-Holds (omega arith) (omega arith)

pop_takes_first_example :
    ((SpscByteQueue.pop 8 queued 1).1 ≡ take 1 (40 ∷ 41 ∷ []))
    × ((SpscByteQueue.pop 8 queued 1).2 ≡ 2)
    × Holds 8 (SpscByteQueue.pop 8 queued 1).0 []
pop_takes_first_example = pop_takes_first 8 queued (40 ∷ 41 ∷ []) [] 1 queued-Holds
