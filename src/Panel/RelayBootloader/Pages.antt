-- ===== src/Panel/RelayBootloader/Pages.antt =====
-- How a page is put together from its chunks.
use mathlib.Core.List.{append-nil}
use lightnet_firmware.Common.{
  ℕ, zero, suc, ◌+◌, ◌-◌, ◌%◌, ◌≤◌, ◌<◌, ◌≡◌, refl, ap, inl, inr, true, false, Bool-cases, List, [],
  ◌∷◌, ◌++◌, arith, leb, ◌==◌, length, length-append, length-drop, take, drop,
}
use lightnet_firmware.Panel.RelayBootloader.{
  RelayBootloader, Effect, page_write, PacketBootloaderWriteChunk, commit_page, load_page,
  store_chunk, is_intact, is_in_page, handle_write_chunk, send_write_ack, bootloader_write_ok,
}

-- A chunk of half a page that has arrived as it was sent.
pub record IsHalf (k : PacketBootloaderWriteChunk) (address : ℕ) : Type 0 where
  pub at : k.address ≡ address
  pub full : k.length ≡ 64
  pub bytes : length k.data_bytes ≡ 64
  pub intact : is_intact k ≡ true

take-append : (xs ys : List ℕ) (n : ℕ) → length xs ≡ n → take n (xs ++ ys) ≡ xs
take-append [] ys zero e = refl
take-append [] ys (suc n) e = absurd (omega arith)
take-append (x ∷ xs) ys zero e = absurd (omega arith)
take-append (x ∷ xs) ys (suc n) e = ap (λ zs. x ∷ zs) (take-append xs ys n (omega arith))

take-whole : (xs : List ℕ) (n : ℕ) → length xs ≡ n → take n xs ≡ xs
take-whole [] zero e = refl
take-whole [] (suc n) e = refl
take-whole (x ∷ xs) zero e = absurd (omega arith)
take-whole (x ∷ xs) (suc n) e = ap (λ zs. x ∷ zs) (take-whole xs n (omega arith))

drop-whole : (xs : List ℕ) (n : ℕ) → length xs ≤ n → drop n xs ≡ []
drop-whole [] zero e = refl
drop-whole [] (suc n) e = refl
drop-whole (x ∷ xs) zero e = absurd (omega arith)
drop-whole (x ∷ xs) (suc n) e = drop-whole xs n (omega arith)

-- A page is loaded without anything being written.
record IsLoaded (a : ℕ) (r : RelayBootloader × List Effect) : Type 0 where
  start : r.0.page_start ≡ a
  buffer : length r.0.page_buf ≡ 128
  silent : r.1 ≡ []

load_page-IsLoaded :
    (a : ℕ) (b : RelayBootloader)
    → b.page_dirty ≡ false
    → length b.page_buf ≡ 128
    → IsLoaded a (load_page 128 a b)
unfolding load_page commit_page
load_page-IsLoaded a b clean n = elim (Bool-cases (a == b.page_start)) [
  | inl same ↦
      rw (same, load_page) (record { start = ground (arith, same); buffer = n; silent = refl })
  | inr other ↦ rw (other, clean, load_page) (record { start = refl; buffer = refl; silent = refl })
]

-- The first half of the page `a` is stored.
record IsHalfway (a : ℕ) (half : List ℕ) (r : RelayBootloader × List Effect) : Type 0 where
  start : r.0.page_start ≡ a
  begun : take 64 r.0.page_buf ≡ half
  buffer : length r.0.page_buf ≡ 128
  silent : r.1 ≡ []

store_first-IsHalfway :
    (b : RelayBootloader) (k : PacketBootloaderWriteChunk) (a : ℕ)
    → IsHalf k a
    → a % 128 ≡ 0
    → b.page_dirty ≡ false
    → length b.page_buf ≡ 128
    → IsHalfway a k.data_bytes (store_chunk 128 b k)
unfolding store_chunk
store_first-IsHalfway b k a h al clean n =
    let offset : k.address % 128 ≡ 0 = omega (arith, h.at, al) in
    let start : k.address - 0 ≡ a = omega (arith, h.at) in
    let l = load_page-IsLoaded a b clean n in
    let buf = (load_page 128 a b).0.page_buf in
    rw (offset, start, h.full, take-whole k.data_bytes 64 h.bytes, store_chunk)
      (record {
        start = l.start;
        begun = take-append k.data_bytes (drop 64 buf) 64 h.bytes;
        buffer =
            (let e = length-append k.data_bytes (drop 64 buf) in
              let r = length-drop 64 buf in omega (arith, e, r, l.buffer, h.bytes));
        silent = l.silent;
      })

store_second :
    (b : RelayBootloader) (k : PacketBootloaderWriteChunk) (a : ℕ) (half : List ℕ)
    → IsHalf k (a + 64)
    → a % 128 ≡ 0
    → a < 0x7000
    → b.page_start ≡ a
    → take 64 b.page_buf ≡ half
    → length b.page_buf ≡ 128
    → (store_chunk 128 b k).1 ≡ page_write a (half ++ k.data_bytes) ∷ []
unfolding store_chunk load_page commit_page
store_second b k a half h al low st begun n =
    let offset : k.address % 128 ≡ 64 = omega (arith, h.at, al) in
    let start : k.address - 64 ≡ a = omega (arith, h.at) in
    let loaded : (a == b.page_start) ≡ true = ground (arith, st) in
    let below : leb 0x7000 b.page_start ≡ false = ground (arith, st, low) in
    rw
      (
        offset,
        start,
        h.full,
        take-whole k.data_bytes 64 h.bytes,
        loaded,
        below,
        drop-whole b.page_buf 128 (omega (arith, n)),
        begun,
        append-nil k.data_bytes,
        st,
        store_chunk,
      )
      refl

handle_half :
    (b : RelayBootloader) (k : PacketBootloaderWriteChunk) (a : ℕ)
    → IsHalf k a
    → a + 64 ≤ 0x7000
    → a % 128 ≤ 64
    → handle_write_chunk 128 b k ≡ (
      (store_chunk 128 b k).0,
      (store_chunk 128 b k).1 ++ send_write_ack (store_chunk 128 b k).0 a bootloader_write_ok ∷ [],
    )
unfolding handle_write_chunk is_in_page
handle_half b k a h low half =
    let inside : is_in_page 128 k ≡ true = ground (arith, h.at, h.full, low, half) in
    rw (h.intact, inside, h.at, handle_write_chunk) refl

-- With pages of 128 bytes, when the two halves of a page below the boot section arrive one after the
-- other as they were sent, and no other page is begun, each is acknowledged, and with the second the
-- page is written: it is the bytes of the two, whatever the buffer held.
pub write_page :
    (b : RelayBootloader) (k l : PacketBootloaderWriteChunk) (a : ℕ)
    → b.page_dirty ≡ false
    → length b.page_buf ≡ 128
    → IsHalf k a
    → IsHalf l (a + 64)
    → a % 128 ≡ 0
    → a + 128 ≤ 0x7000
    → let first = handle_write_chunk 128 b k in
      let second = handle_write_chunk 128 first.0 l in
      (first.1 ≡ send_write_ack first.0 a bootloader_write_ok ∷ [])
      × (second.1
          ≡ page_write a (k.data_bytes ++ l.data_bytes)
            ∷ send_write_ack second.0 (a + 64) bootloader_write_ok
            ∷ [])
write_page b k l a clean n hk hl al low =
    let h = store_first-IsHalfway b k a hk al clean n in
    let c = (store_chunk 128 b k).0 in
    let e = handle_half b k a hk (omega (arith, low)) (omega (arith, al)) in
    let f = handle_half c l (a + 64) hl (omega (arith, low)) (omega (arith, al)) in
    let w = store_second c l a k.data_bytes hl al (omega (arith, low)) h.start h.begun h.buffer in
    rw (e, f, h.silent, w) (refl, refl)
