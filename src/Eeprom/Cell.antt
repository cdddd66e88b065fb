-- ===== src/Eeprom/Cell.antt =====
-- One cell of the EEPROM, as `eeprom_put_char` of grbl/eeprom.c programs it.
use tele_handwriter.Base.{ℕ, ◌<◌, ◌≡◌, ◌≢◌, arith}
use tele_handwriter.Base.Bits.Xor.{bit_xor-same, bit_and-of_bit_xor}
use tele_handwriter.Eeprom.{Programming, IsDocumented, Memory, program, eeprom_put_char}

program_lem :
    (hw : Programming) (old new : ℕ)
    → IsDocumented hw
    → old < 256
    → new < 256
    → program hw old new ≡ new
unfolding program
program_lem hw old new doc p q = ground (
  arith,
  doc.erase_write_lem old new p q,
  doc.erase_only_lem old old p p,
  doc.write_only_lem old new p q,
  bit_xor-same old new,
  bit_and-of_bit_xor old new,
)

-- With the programming modes as documented, the written cell reads back the new value, although only
-- the bits that differ are programmed, and every other cell keeps its value.
pub eeprom_put_char_lem :
    (hw : Programming) (addr new : ℕ) (m : Memory)
    → IsDocumented hw
    → m addr < 256
    → new < 256
    → (eeprom_put_char hw addr new m addr ≡ new)
      × ((k : ℕ) → k ≢ addr → eeprom_put_char hw addr new m k ≡ m k)
unfolding eeprom_put_char
eeprom_put_char_lem hw addr new m doc p q =
    (ground (arith, program_lem hw (m addr) new doc p q), λ k h. ground arith)
