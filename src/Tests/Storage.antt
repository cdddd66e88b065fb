-- ===== src/Tests/Storage.antt =====
-- Examples for the EEPROM, the printers and the delay.
use tele_handwriter.Base.{
  ℕ, zero, suc, ◌<◌, ◌≤◌, ◌≡◌, ◌⊎◌, refl, true, List, [], ◌∷◌, length, replicate, bit_and, All,
  arith,
}
use tele_handwriter.Eeprom.{
  Programming, IsDocumented, Memory, add_checksum, memcpy_to_eeprom_with_checksum,
  memcpy_from_eeprom_with_checksum,
}
use tele_handwriter.Eeprom.Records.{IsBytes, IsByte, memcpy_from-memcpy_to}
use tele_handwriter.Eeprom.Checksum.{sum_from}
use tele_handwriter.Settings.{line_buffer_size}
use tele_handwriter.Print.{print_uint32_base10, max_digits}
use tele_handwriter.Print.Decimal.{read_digits, read-print_uint32_base10}

-- The hardware as the data sheet has it.
abbrev atmega : Programming
atmega = record {
  erase_write = λ old byte. byte;
  erase_only = λ old byte. 255;
  write_only = λ old byte. bit_and old byte;
}

atmega-IsDocumented : IsDocumented atmega
atmega-IsDocumented = record {
  erase_write_lem = λ old byte p q. refl;
  erase_only_lem = λ old byte p q. refl;
  write_only_lem = λ old byte p q. refl;
}

abbrev erased : Memory
erased = λ k. 255

erased-IsBytes : IsBytes erased
erased-IsBytes = λ k. omega arith

memcpy_from-memcpy_to_example :
    (memcpy_from_eeprom_with_checksum 9 2
        (memcpy_to_eeprom_with_checksum atmega 9 (7 ∷ 8 ∷ []) erased)
      ≡ (7 ∷ 8 ∷ [], true))
    × ((k : ℕ)
        → (k < 9) ⊎ (11 < k)
        → memcpy_to_eeprom_with_checksum atmega 9 (7 ∷ 8 ∷ []) erased k ≡ 255)
memcpy_from-memcpy_to_example =
    memcpy_from-memcpy_to atmega atmega-IsDocumented 9 (7 ∷ 8 ∷ []) erased erased-IsBytes
      (omega arith, (omega arith, tt)) (omega arith)

sums : (0 < sum_from 0 (7 ∷ [])) × (0 < sum_from 0 (9 ∷ []))
unfolding add_checksum
sums = (omega arith, omega arith)

abbrev line : List ℕ
line = replicate line_buffer_size 65

letters : (n : ℕ) → All IsByte (replicate n 65)
letters zero = tt
letters (suc n) = (omega arith, letters n)

read-print_uint32_base10_example :
    (read_digits 10 0 (print_uint32_base10 40960) ≡ 40960)
    × (length (print_uint32_base10 40960) ≤ max_digits)
read-print_uint32_base10_example = read-print_uint32_base10 40960 (omega arith)
