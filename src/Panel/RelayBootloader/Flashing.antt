-- ===== src/Panel/RelayBootloader/Flashing.antt =====
-- RelayBootloader.cpp: what the loop of main writes to the flash.
use lightnet_firmware.Common.{
  ℕ, zero, suc, ◌+◌, ◌-◌, ◌%◌, ◌≤◌, ◌<◌, ◌≡◌, refl, ap, ◌⊎◌, inl, inr, Bool, true, false,
  Bool-cases, not, ◌||◌, List, [], ◌∷◌, ◌++◌, arith, leb, ◌==◌, if◌then◌else◌, length,
  length-append, length-take, length-drop, take, drop, replicate, All, All-append, u16,
}
use lightnet_firmware.Framing.PacketFramer
use lightnet_firmware.Panel.RelayBootloader.{
  RelayBootloader, Effect, page_write, frame_sent, app_started, PacketBootloaderWriteChunk,
  commit_page, load_page, copy_into, store_chunk, is_intact, is_in_page, handle_write_chunk,
  send_write_ack, send_pong, leave, on_frame, on_tick, on_byte, new, write_chunk_of, bytes_at,
}

-- A page of 128 bytes that begins at a multiple of that and ends below the boot section.
abbrev pub IsSafe : Effect → Type 0
IsSafe (page_write start bytes) = (start % 128 ≡ 0) × (start + 128 ≤ 0x7000) × (length bytes ≡ 128)
IsSafe _ = Unit

-- The page buffer is whole, and a page that is loaded is aligned.
pub record Inv (b : RelayBootloader) : Type 0 where
  pub buffer : length b.page_buf ≡ 128
  pub aligned : (b.page_start ≡ 65535) ⊎ (b.page_start % 128 ≡ 0)

record IsGood (r : RelayBootloader × List Effect) : Type 0 where
  inv : Inv r.0
  safe : All IsSafe r.1

length-replicate : (n v : ℕ) → length (replicate n v) ≡ n
length-replicate zero v = refl
length-replicate (suc n) v = ap suc (length-replicate n v)

commit_page-IsGood : (b : RelayBootloader) → Inv b → IsGood (commit_page b)
unfolding commit_page
commit_page-IsGood b h = elim (Bool-cases (not b.page_dirty || leb 0x7000 b.page_start)) [
  | inl nothing ↦
      rw (nothing, commit_page)
        (record { inv = record { buffer = h.buffer; aligned = h.aligned }; safe = tt })
  | inr dirty ↦
      let low : b.page_start < 0x7000 = ground arith in
      let a : b.page_start % 128 ≡ 0 = elim h.aligned [
        | inl none ↦ absurd (omega (arith, none, low))
        | inr a ↦ a
      ] in
      rw (dirty, commit_page)
        (record {
          inv = record { buffer = h.buffer; aligned = h.aligned };
          safe = ((a, omega (arith, a, low), h.buffer), tt);
        })
]

load_page-IsGood :
    (start : ℕ) (b : RelayBootloader) → start % 128 ≡ 0 → Inv b → IsGood (load_page 128 start b)
unfolding load_page
load_page-IsGood start b a h = elim (Bool-cases (start == b.page_start)) [
  | inl same ↦ rw (same, load_page) (record { inv = h; safe = tt })
  | inr other ↦
      rw (other, load_page)
        (record {
          inv = record { buffer = length-replicate 128 255; aligned = inr a };
          safe = (commit_page-IsGood b h).safe;
        })
]

length-copy_into :
    (buffer bytes : List ℕ) (offset n : ℕ)
    → length buffer ≡ 128
    → offset + n ≤ 128
    → n ≤ length bytes
    → length (copy_into buffer offset n bytes) ≡ 128
length-copy_into buffer bytes offset n a b c =
    let t = length-take offset buffer in
    let u = length-take n bytes in
    let v = length-drop (offset + n) buffer in
    let w = length-append (take n bytes) (drop (offset + n) buffer) in
    let x = length-append (take offset buffer) (take n bytes ++ drop (offset + n) buffer) in
    omega (arith, t, u, v, w, x)

store_chunk-IsGood :
    (b : RelayBootloader) (k : PacketBootloaderWriteChunk)
    → length k.data_bytes ≡ 64
    → is_intact k ≡ true
    → is_in_page 128 k ≡ true
    → Inv b
    → IsGood (store_chunk 128 b k)
unfolding store_chunk is_intact is_in_page
store_chunk-IsGood b k n ok inside h =
    let offset = k.address % 128 in
    let short : k.length ≤ 64 = ground (arith, ok) in
    let fits : offset + k.length ≤ 128 = ground (arith, inside, short) in
    let loaded = load_page-IsGood (k.address - offset) b (omega arith) h in
    let c = load_page 128 (k.address - offset) b in
    let d = record c.0 {
      page_buf = copy_into c.0.page_buf offset k.length k.data_bytes;
      page_dirty = true;
    } in
    let whole : Inv d = record {
      buffer =
          length-copy_into c.0.page_buf k.data_bytes offset k.length loaded.inv.buffer fits
            (omega (arith, n, short));
      aligned = loaded.inv.aligned;
    } in
    let committed = commit_page-IsGood d whole in
    elim (Bool-cases (offset + k.length == 128)) [
      | inl full ↦
          rw (full, store_chunk)
            (record {
              inv = committed.inv;
              safe = All-append IsSafe c.1 (commit_page d).1 loaded.safe committed.safe;
            })
      | inr partial ↦ rw (partial, store_chunk) (record { inv = whole; safe = loaded.safe })
    ]

handle_write_chunk-IsGood :
    (b : RelayBootloader) (k : PacketBootloaderWriteChunk)
    → length k.data_bytes ≡ 64
    → Inv b
    → IsGood (handle_write_chunk 128 b k)
unfolding handle_write_chunk send_write_ack
handle_write_chunk-IsGood b k n h = elim (Bool-cases (is_intact k)) [
  | inr broken ↦ rw (broken, handle_write_chunk) (record { inv = h; safe = (tt, tt) })
  | inl ok ↦ elim (Bool-cases (is_in_page 128 k)) [
    | inr outside ↦ rw (ok, outside, handle_write_chunk) (record { inv = h; safe = (tt, tt) })
    | inl inside ↦
        let g = store_chunk-IsGood b k n ok inside h in
        rw (ok, inside, handle_write_chunk)
          (record {
            inv = g.inv;
            safe = All-append IsSafe (store_chunk 128 b k).1 _ g.safe (tt, tt);
          })
  ]
]

leave-IsGood : (b : RelayBootloader) → Inv b → IsGood (leave b)
unfolding leave
leave-IsGood b h =
    let g = commit_page-IsGood b h in
    record {
      inv = g.inv;
      safe = All-append IsSafe (commit_page b).1 (app_started ∷ []) g.safe (tt, tt);
    }

length-bytes_at : (n : ℕ) (b : List ℕ) (i : ℕ) → length (bytes_at n b i) ≡ n
unfolding bytes_at
length-bytes_at zero b i = refl
length-bytes_at (suc n) b i = ap suc (length-bytes_at n b (i + 1))

on_frame-IsGood : (b : RelayBootloader) (frame : List ℕ) → Inv b → IsGood (on_frame 128 b frame)
unfolding on_frame send_pong write_chunk_of
on_frame-IsGood b frame h =
    let g = handle_write_chunk-IsGood b (write_chunk_of frame) (length-bytes_at 64 frame 10) h in
    let l = leave-IsGood b h in
    let none : IsGood (b, []) = record { inv = h; safe = tt } in ground (arith, g, l, none)

on_tick-IsGood : (b : RelayBootloader) (elapsed : ℕ) → Inv b → IsGood (on_tick b elapsed)
unfolding on_tick
on_tick-IsGood b elapsed h =
    let c = record b { idle_ticks = u16 (b.idle_ticks + elapsed) } in
    let i : Inv c = record { buffer = h.buffer; aligned = h.aligned } in
    let l = leave-IsGood c i in
    let same : IsGood (b, []) = record { inv = h; safe = tt } in
    let waits : IsGood (c, []) = record { inv = i; safe = tt } in
    let drops : IsGood (record c { framer = PacketFramer.reset c.framer }, []) = record {
      inv = record { buffer = h.buffer; aligned = h.aligned };
      safe = tt;
    } in
    ground (arith, l, same, waits, drops)

on_byte-IsGood : (b : RelayBootloader) (value : ℕ) → Inv b → IsGood (on_byte 128 b value)
unfolding on_byte
on_byte-IsGood b value h =
    let r = PacketFramer.push_byte b.framer value in
    let c = record b { idle_ticks = 0; framer = r.0 } in
    let i : Inv c = record { buffer = h.buffer; aligned = h.aligned } in
    elim (Bool-cases r.1) [
      | inl done ↦ rw (done, on_byte) (on_frame-IsGood c (PacketFramer.frame r.0) i)
      | inr more ↦ rw (more, on_byte) (record { inv = i; safe = tt })
    ]

-- Ticks of the timer and bytes, as the loop of `main` comes to them.
pub data Event : Type 0 where
  ticked : ℕ → Event
  received : ℕ → Event

abbrev pub step : RelayBootloader → Event → RelayBootloader × List Effect
step b (ticked elapsed) = on_tick b elapsed
step b (received value) = on_byte 128 b value

-- Whether the application has been started.
abbrev pub ends : List Effect → Bool
ends [] = false
ends (app_started ∷ es) = true
ends (page_write start bytes ∷ es) = ends es
ends (frame_sent frame ∷ es) = ends es

abbrev pub run : RelayBootloader → List Event → RelayBootloader × List Effect
run b [] = (b, [])
run b (e ∷ es) =
    let (c, out) = step b e in
    let (d, rest) = run c es in if ends out then (c, out) else (d, out ++ rest)

step-IsGood : (b : RelayBootloader) (e : Event) → Inv b → IsGood (step b e)
step-IsGood b (ticked elapsed) h = on_tick-IsGood b elapsed h
step-IsGood b (received value) h = on_byte-IsGood b value h

run-IsGood : (b : RelayBootloader) (es : List Event) → Inv b → IsGood (run b es)
run-IsGood b [] h = record { inv = h; safe = tt }
run-IsGood b (e ∷ es) h =
    let s = step-IsGood b e h in
    let r = run-IsGood (step b e).0 es s.inv in
    elim (Bool-cases (ends (step b e).1)) [
      | inl over ↦ rw over s
      | inr goes ↦ rw goes (record {
        inv = r.inv;
        safe = All-append IsSafe (step b e).1 (run (step b e).0 es).1 s.safe r.safe;
      })
    ]

-- With pages of 128 bytes, whatever bytes arrive and whenever the timer ticks, all that the bootloader
-- writes to the flash are whole pages, each at a multiple of 128 and ending below its own section.
pub run-new-IsSafe :
    (index : ℕ) (memory : List ℕ) (es : List Event) → All IsSafe (run (new 128 index memory) es).1
unfolding new
run-new-IsSafe index memory es =
    (run-IsGood (new 128 index memory) es
      (record { buffer = length-replicate 128 0; aligned = inl refl })).safe
