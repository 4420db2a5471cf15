-- ===== src/Panel/RelayBootloader.antt =====
-- lib/Lightnet/Panel/bootloader/RelayBootloader.cpp: the program that a panel is flashed through. SPM_PAGESIZE, a
-- constant of the compiler's headers, is the argument `page`. What is done to the flash, sent and jumped
-- to is a list of effects; debug prints, pins and registers are left out.
pub mod Flashing
pub mod Pages
mod Tests
use lightnet_firmware.Common.{
  ℕ, zero, suc, ◌+◌, ◌-◌, ◌%◌, Bool, true, false, not, ◌&&◌, ◌||◌, List, [], ◌∷◌, ◌++◌, ltb, leb,
  ◌==◌, ◌!=◌, if◌then◌else◌, u16, length, get_or, take, drop, replicate, bytes16, read16,
}
use lightnet_firmware.Protocol.Types.{
  PacketMeta, packet_bootloader_ping, packet_bootloader_pong, packet_bootloader_write_chunk,
  packet_bootloader_write_ack, packet_bootloader_start_app,
}
use lightnet_firmware.Protocol.Crc.{crc16}
use lightnet_firmware.Protocol.Meta.{meta_of, make_meta}
use lightnet_firmware.Protocol.Panel.{bootloader_pong_bytes, bootloader_write_ack_bytes}
use lightnet_firmware.Framing.PacketFramer
use lightnet_firmware.Framing.PacketFramer.{PacketFramer, has_partial_frame}

abbrev pub bootloader_start : ℕ
bootloader_start = 0x7000

abbrev pub bootloader_chunk_size : ℕ
bootloader_chunk_size = 64

abbrev pub bootloader_protocol_version : ℕ
bootloader_protocol_version = 2

abbrev pub bootloader_write_ok : ℕ
bootloader_write_ok = 0

abbrev pub bootloader_write_bad_crc : ℕ
bootloader_write_bad_crc = 1

abbrev pub bootloader_write_bad_address : ℕ
bootloader_write_bad_address = 2

abbrev pub idle_timeout_ticks : ℕ
idle_timeout_ticks = 900

abbrev pub partial_frame_reset_ticks : ℕ
partial_frame_reset_ticks = 2

abbrev pub no_page : ℕ
no_page = 0xFFFF

-- A page of the flash is erased and written; a frame is sent to the parent; the application starts.
pub data Effect : Type 0 where
  page_write : ℕ → List ℕ → Effect
  frame_sent : List ℕ → Effect
  app_started : Effect

pub record PacketBootloaderWriteChunk : Type 0 where
  pub meta : PacketMeta
  pub address : ℕ
  pub length : ℕ
  pub data_bytes : List ℕ
  pub data_crc : ℕ

-- The `n` bytes of an array that begins at byte `i`.
unfoldable pub bytes_at : ℕ → List ℕ → ℕ → List ℕ
bytes_at zero b i = []
bytes_at (suc n) b i = get_or b i 0 ∷ bytes_at n b (i + 1)

-- The cast of a frame, of which `data_bytes` are the 64 bytes of the array.
unfoldable pub write_chunk_of : List ℕ → PacketBootloaderWriteChunk
unfolding bytes_at
write_chunk_of b = record {
  meta = meta_of b;
  address = read16 (get_or b 7 0) (get_or b 8 0);
  length = get_or b 9 0;
  data_bytes = bytes_at bootloader_chunk_size b 10;
  data_crc = read16 (get_or b 74 0) (get_or b 75 0);
}

-- `page_buf` is the array of `page` bytes.
pub record RelayBootloader : Type 0 where
  pub assigned_index : ℕ
  pub page_buf : List ℕ
  pub page_start : ℕ
  pub page_dirty : Bool
  pub idle_ticks : ℕ
  pub framer : PacketFramer

-- The start of `main` behind its checks. The buffer is the zeroes of `.bss`.
unfoldable pub new : ℕ → ℕ → List ℕ → RelayBootloader
new page index memory = record {
  assigned_index = index;
  page_buf = replicate page 0;
  page_start = no_page;
  page_dirty = false;
  idle_ticks = 0;
  framer = PacketFramer.new memory false;
}

unfoldable pub commit_page : RelayBootloader → RelayBootloader × List Effect
commit_page b =
    let clean = record b { page_dirty = false } in
    if not b.page_dirty || leb bootloader_start b.page_start
    then (clean, [])
    else (clean, page_write b.page_start b.page_buf ∷ [])

unfoldable pub load_page : ℕ → ℕ → RelayBootloader → RelayBootloader × List Effect
unfolding commit_page
load_page page start b =
    let (c, written) = commit_page b in
    if start == b.page_start
    then (b, [])
    else (record c { page_start = start; page_buf = replicate page 255 }, written)

unfoldable pub send_pong : ℕ → RelayBootloader → Effect
send_pong page b = frame_sent (
    bootloader_pong_bytes (record {
      meta = make_meta packet_bootloader_pong b.assigned_index;
      bootloader_version = bootloader_protocol_version;
      page_size = page;
      flash_size = bootloader_start;
    }))

unfoldable pub send_write_ack : RelayBootloader → ℕ → ℕ → Effect
send_write_ack b address status = frame_sent (
    bootloader_write_ack_bytes (record {
      meta = make_meta packet_bootloader_write_ack b.assigned_index;
      address = address;
      status = status;
      payload_crc = crc16 (bytes16 address ++ status ∷ []);
    }))

-- `memcpy(buffer + offset, data, n)`.
abbrev pub copy_into : List ℕ → ℕ → ℕ → List ℕ → List ℕ
copy_into buffer offset n bytes = take offset buffer ++ (take n bytes ++ drop (offset + n) buffer)

-- `crcOk`: the checksum covers the address, the length and the data.
unfoldable pub is_intact : PacketBootloaderWriteChunk → Bool
is_intact k =
    leb 1 k.length
    && leb k.length bootloader_chunk_size
    && (crc16 (bytes16 k.address ++ k.length ∷ take k.length k.data_bytes) == k.data_crc)

-- `addrOk`: below the boot section and inside one page.
unfoldable pub is_in_page : ℕ → PacketBootloaderWriteChunk → Bool
is_in_page page k =
    leb (k.address + k.length) bootloader_start && leb (u16 (k.address % page + k.length)) page

-- `handleWriteChunk` on a chunk that has passed its checks.
unfoldable pub store_chunk :
    ℕ → RelayBootloader → PacketBootloaderWriteChunk → RelayBootloader × List Effect
unfolding commit_page load_page
store_chunk page b k =
    let offset = k.address % page in
    let (c, written) = load_page page (k.address - offset) b in
    let d = record c {
      page_buf = copy_into c.page_buf offset k.length k.data_bytes;
      page_dirty = true;
    } in
    let (e, committed) = commit_page d in
    if offset + k.length == page then (e, written ++ committed) else (d, written)

unfoldable pub handle_write_chunk :
    ℕ → RelayBootloader → PacketBootloaderWriteChunk → RelayBootloader × List Effect
unfolding is_intact is_in_page store_chunk send_write_ack
handle_write_chunk page b k =
    let (c, effects) = store_chunk page b k in
    if not (is_intact k)
    then (b, send_write_ack b k.address bootloader_write_bad_crc ∷ [])
    else if not (is_in_page page k)
    then (b, send_write_ack b k.address bootloader_write_bad_address ∷ [])
    else (c, effects ++ send_write_ack c k.address bootloader_write_ok ∷ [])

-- What ends the program: the last page is written and the application started.
unfoldable pub leave : RelayBootloader → RelayBootloader × List Effect
unfolding commit_page
leave b = let (c, written) = commit_page b in (c, written ++ app_started ∷ [])

-- The `switch` of `main` on a frame that is for this panel.
unfoldable pub on_frame : ℕ → RelayBootloader → List ℕ → RelayBootloader × List Effect
unfolding handle_write_chunk leave send_pong
on_frame page b frame =
    let header = (meta_of frame).header in
    if (header.target_panel_index != 0) && (header.target_panel_index != b.assigned_index)
    then (b, [])
    else if header.type == packet_bootloader_ping
    then (b, send_pong page b ∷ [])
    else if header.type == packet_bootloader_write_chunk
    then handle_write_chunk page b (write_chunk_of frame)
    else if header.type == packet_bootloader_start_app
    then leave b
    else (b, [])

-- The part of the loop of `main` on `elapsed` ticks of the timer.
unfoldable pub on_tick : RelayBootloader → ℕ → RelayBootloader × List Effect
unfolding leave
on_tick b elapsed =
    let c = record b { idle_ticks = u16 (b.idle_ticks + elapsed) } in
    if elapsed == 0
    then (b, [])
    else if leb idle_timeout_ticks c.idle_ticks
    then leave c
    else if leb partial_frame_reset_ticks c.idle_ticks && has_partial_frame c.framer
    then (record c { framer = PacketFramer.reset c.framer }, [])
    else (c, [])

-- The rest of the loop, on a byte.
unfoldable pub on_byte : ℕ → RelayBootloader → ℕ → RelayBootloader × List Effect
unfolding on_frame
on_byte page b value =
    let (f, done) = PacketFramer.push_byte b.framer value in
    let c = record b { idle_ticks = 0; framer = f } in
    if done then on_frame page c (PacketFramer.frame f) else (c, [])
