-- ===== src/Panel/RelayBootloader/Tests.antt =====
-- A bootloader and the halves of a page, on which the theorems about it apply.
use lightnet_firmware.Common.{ℕ, ◌≡◌, refl, arith, List, [], ◌∷◌, ◌++◌, All, replicate, bytes16}
use lightnet_firmware.Protocol.Types.{packet_bootloader_ping, packet_bootloader_write_chunk}
use lightnet_firmware.Protocol.Meta.{make_meta}
use lightnet_firmware.Protocol.Crc.{crc16}
use lightnet_firmware.Panel.RelayBootloader.{
  RelayBootloader, PacketBootloaderWriteChunk, new, handle_write_chunk, send_write_ack, page_write,
  bootloader_write_ok, is_intact,
}
use lightnet_firmware.Panel.RelayBootloader.Flashing.{
  IsSafe, Event, ticked, received, run, run-new-IsSafe,
}
use lightnet_firmware.Panel.RelayBootloader.Pages.{IsHalf, write_page}

abbrev bootloader : RelayBootloader
bootloader = new 128 4 (replicate 80 0)

abbrev chunk : ℕ → ℕ → PacketBootloaderWriteChunk
chunk address value = record {
  meta = make_meta packet_bootloader_write_chunk 4;
  address = address;
  length = 64;
  data_bytes = replicate 64 value;
  data_crc = crc16 (bytes16 address ++ 64 ∷ replicate 64 value);
}

chunk-IsHalf : (address value : ℕ) → IsHalf (chunk address value) address
unfolding is_intact
chunk-IsHalf address value = record { at = refl; full = refl; bytes = refl; intact = ground arith }

write_page_example :
    let first = handle_write_chunk 128 bootloader (chunk 256 7) in
    let second = handle_write_chunk 128 first.0 (chunk 320 9) in
    (first.1 ≡ send_write_ack first.0 256 bootloader_write_ok ∷ [])
    × (second.1
        ≡ page_write 256 (replicate 64 7 ++ replicate 64 9)
          ∷ send_write_ack second.0 320 bootloader_write_ok
          ∷ [])
unfolding new
write_page_example =
    write_page bootloader (chunk 256 7) (chunk 320 9) 256 refl refl (chunk-IsHalf 256 7)
      (chunk-IsHalf 320 9) refl (omega arith)

abbrev arrivals : List Event
arrivals = ticked 1 ∷ received packet_bootloader_ping ∷ received 0 ∷ ticked 3 ∷ ticked 899 ∷ []

run-new-IsSafe_example : All IsSafe (run (new 128 4 (replicate 80 0)) arrivals).1
run-new-IsSafe_example = run-new-IsSafe 4 (replicate 80 0) arrivals
