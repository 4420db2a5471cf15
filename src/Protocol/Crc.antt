-- ===== src/Protocol/Crc.antt =====
-- lib/Lightnet/Utils/Crc.cpp: the CRC-16 of headers, frames and bootloader payloads.
use Prim.Native.Nat.{bit_and, bit_xor}
use lightnet_firmware.Common.{
  ℕ, zero, suc, ◌/◌, ◌<◌, List, [], ◌∷◌, ◌++◌, ◌≡◌, refl, arith, u16, ◌!=◌, if◌then◌else◌,
}

-- One round of the loop of `crc16Update`.
crc16_round : ℕ → ℕ
crc16_round crc = if bit_and crc 1 != 0 then u16 (bit_xor (crc / 2) 0xA001) else crc / 2

crc16_rounds : ℕ → ℕ → ℕ
crc16_rounds zero crc = crc
crc16_rounds (suc i) crc = crc16_rounds i (crc16_round crc)

unfoldable pub crc16_update : ℕ → ℕ → ℕ
unfolding crc16_rounds crc16_round
crc16_update crc a = crc16_rounds 8 (u16 (bit_xor crc a))

-- `while (size--) crc = crc16Update(crc, *source++)`.
unfoldable pub crc16_from : ℕ → List ℕ → ℕ
unfolding crc16_update
crc16_from crc [] = crc
crc16_from crc (b ∷ bs) = crc16_from (crc16_update crc b) bs

unfoldable pub crc16 : List ℕ → ℕ
unfolding crc16_from
crc16 bs = crc16_from 0xFFFF bs

crc16_round-lt : (crc : ℕ) → crc < 65536 → crc16_round crc < 65536
unfolding crc16_round
crc16_round-lt crc h = ground arith

crc16_rounds-lt : (i crc : ℕ) → crc < 65536 → crc16_rounds i crc < 65536
unfolding crc16_rounds
crc16_rounds-lt zero crc h = h
crc16_rounds-lt (suc i) crc h = crc16_rounds-lt i (crc16_round crc) (crc16_round-lt crc h)

crc16_update-lt : (crc a : ℕ) → crc16_update crc a < 65536
unfolding crc16_update
crc16_update-lt crc a = crc16_rounds-lt 8 (u16 (bit_xor crc a)) (omega arith)

crc16_from-lt : (crc : ℕ) (bs : List ℕ) → crc < 65536 → crc16_from crc bs < 65536
unfolding crc16_from
crc16_from-lt crc [] h = h
crc16_from-lt crc (b ∷ bs) h = crc16_from-lt (crc16_update crc b) bs (crc16_update-lt crc b)

pub crc16-lt : (bs : List ℕ) → crc16 bs < 65536
unfolding crc16
crc16-lt bs = crc16_from-lt 0xFFFF bs (omega arith)

pub crc16_from-append :
    (crc : ℕ) (xs ys : List ℕ) → crc16_from crc (xs ++ ys) ≡ crc16_from (crc16_from crc xs) ys
unfolding crc16_from
crc16_from-append crc [] ys = refl
crc16_from-append crc (x ∷ xs) ys = crc16_from-append (crc16_update crc x) xs ys

-- The check value of CRC-16/MODBUS, for "123456789".
check_value : crc16 (0x31 ∷ 0x32 ∷ 0x33 ∷ 0x34 ∷ 0x35 ∷ 0x36 ∷ 0x37 ∷ 0x38 ∷ 0x39 ∷ []) ≡ 0x4B37
unfolding crc16
check_value = refl
