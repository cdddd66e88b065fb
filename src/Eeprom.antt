-- ===== src/Eeprom.antt =====
-- grbl/eeprom.c. The memory gives each address its byte; an address is a 16-bit unsigned int. What
-- the hardware does to a cell in each of its three programming modes is a parameter.
pub mod Cell
pub mod Records
pub mod Checksum
use tele_handwriter.Base.{
  ℕ, zero, suc, ◌+◌, ◌*◌, ◌/◌, ◌<◌, ◌≡◌, Bool, true, false, not, ◌||◌, List, [], ◌∷◌, ◌==◌,
  if◌then◌else◌, bit_and, bit_xor, u8, u16,
}

-- The new value of a cell from its old value and the data register EEDR.
pub record Programming : Type 0 where
  pub erase_write : ℕ → ℕ → ℕ
  pub erase_only : ℕ → ℕ → ℕ
  pub write_only : ℕ → ℕ → ℕ

-- The modes as the data sheet describes them: erase and write stores the data, erase only sets every
-- bit, write only clears the bits that the data has clear.
pub record IsDocumented (hw : Programming) : Type 0 where
  pub erase_write_lem : (old byte : ℕ) → old < 256 → byte < 256 → hw.erase_write old byte ≡ byte
  pub erase_only_lem : (old byte : ℕ) → old < 256 → byte < 256 → hw.erase_only old byte ≡ 255
  pub write_only_lem :
      (old byte : ℕ) → old < 256 → byte < 256 → hw.write_only old byte ≡ bit_and old byte

abbrev pub Memory : Type 0
Memory = ℕ → ℕ

abbrev pub eeprom_get_char : ℕ → Memory → ℕ
eeprom_get_char addr m = m addr

-- The mode that the difference of the values asks for; EEDR still holds the old value when the cell
-- is only erased.
pub program : Programming → ℕ → ℕ → ℕ
program hw old_value new_value =
    let diff_mask = bit_xor old_value new_value in
    if not (bit_and diff_mask new_value == 0)
    then (if not (new_value == 255)
        then hw.erase_write old_value new_value
        else hw.erase_only old_value old_value)
    else if not (diff_mask == 0)
    then hw.write_only old_value new_value
    else old_value

pub eeprom_put_char : Programming → ℕ → ℕ → Memory → Memory
eeprom_put_char hw addr new_value m k =
    if k == addr then program hw (eeprom_get_char addr m) new_value else m k

-- `checksum = (checksum << 1) || (checksum >> 7); checksum += data;` where `||` is the logical or.
unfoldable pub add_checksum : ℕ → ℕ → ℕ
add_checksum checksum byte =
    let rotated = if not (checksum * 2 == 0) || not (checksum / 128 == 0) then 1 else 0 in
    u8 (rotated + byte)

-- The loop, from a checksum, and the checksum that it ends with at the address after the data.
pub put_record : Programming → ℕ → ℕ → List ℕ → Memory → Memory
put_record hw checksum destination [] m = eeprom_put_char hw destination checksum m
put_record hw checksum destination (byte ∷ source) m =
    put_record hw (add_checksum checksum byte) (u16 (destination + 1)) source
      (eeprom_put_char hw destination byte m)

pub memcpy_to_eeprom_with_checksum : Programming → ℕ → List ℕ → Memory → Memory
memcpy_to_eeprom_with_checksum hw destination source m = put_record hw 0 destination source m

-- The bytes that the loop reads and the test of the checksum.
pub get_record : ℕ → ℕ → ℕ → Memory → List ℕ × Bool
get_record checksum source zero m = ([], checksum == eeprom_get_char source m)
get_record checksum source (suc size) m =
    let byte = eeprom_get_char source m in
    let rest = get_record (add_checksum checksum byte) (u16 (source + 1)) size m in
    (byte ∷ rest.0, rest.1)

pub memcpy_from_eeprom_with_checksum : ℕ → ℕ → Memory → List ℕ × Bool
memcpy_from_eeprom_with_checksum source size m = get_record 0 source size m
