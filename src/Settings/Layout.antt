-- ===== src/Settings/Layout.antt =====
-- The places of the records of grbl/settings.c in the EEPROM.
use tele_handwriter.Base.{
  ℕ, ◌+◌, ◌<◌, ◌≤◌, ◌≡◌, ◌≢◌, ◌⊎◌, inl, inr, subst, set, ap, Bool, true, false, List, length,
  get_or, if◌then◌else◌, arith, All,
}
use tele_handwriter.Eeprom.{Programming, IsDocumented, memcpy_from_eeprom_with_checksum}
use tele_handwriter.Eeprom.Records.{
  IsBytes, IsByte, memcpy_from-memcpy_to, memcpy_from-memcpy_to_other, memcpy_to-at,
}
use tele_handwriter.Settings.{
  Storage, line_buffer_size, startup_address, coord_address, coord_size, settings_size,
  eeprom_addr_global, eeprom_addr_build_info, settings_store_startup_line,
  settings_read_startup_line,
}

-- The part of a read that does not repair: the bytes and whether they are valid.
abbrev pub seen : List ℕ × Bool × Storage → List ℕ × Bool
seen (bytes, ok, m) = (bytes, ok)

-- A valid record is shown as it is.
module _ (hw : Programming) where
  read_startup_valid :
      (n : ℕ) (m : Storage) (line : List ℕ)
      → memcpy_from_eeprom_with_checksum (startup_address n) line_buffer_size m.memory
        ≡ (line, true)
      → settings_read_startup_line hw n m ≡ (line, true, m)
  unfolding settings_read_startup_line
  read_startup_valid n m line e =
      ap
        (λ (r : List ℕ × Bool).
          if r.1
          then (r.0, true, m)
          else (set r.0 0 0, false, settings_store_startup_line hw n (set r.0 0 0) m))
        e

-- A stored startup line, of 80 bytes, is read back as it was stored and needs no repair.
pub settings_read-store_startup_line :
    (hw : Programming) (n : ℕ) (line : List ℕ) (m : Storage)
    → IsDocumented hw
    → IsBytes m.memory
    → All IsByte line
    → length line ≡ line_buffer_size
    → n < 256
    → seen (settings_read_startup_line hw n (settings_store_startup_line hw n line m))
      ≡ (line, true)
unfolding settings_store_startup_line
settings_read-store_startup_line hw n line m doc b s l h =
    let stored = settings_store_startup_line hw n line m in
    let read =
      (memcpy_from-memcpy_to hw doc (startup_address n) line m.memory b s (omega arith)).0 in
    ap seen (
      read_startup_valid hw n stored line (
        subst
          (λ k. memcpy_from_eeprom_with_checksum (startup_address n) k stored.memory ≡ (line, true))
          l read))

pub data Item : Type 0 where
  startup_line : ℕ → Item
  build_info : Item
  coordinates : ℕ → Item
  global_settings : Item

abbrev pub place : Item → ℕ
place (startup_line k) = startup_address k
place build_info = eeprom_addr_build_info
place (coordinates k) = coord_address k
place global_settings = eeprom_addr_global

abbrev pub size : Item → ℕ
size (startup_line k) = line_buffer_size
size build_info = line_buffer_size
size (coordinates k) = coord_size
size global_settings = settings_size

-- The records that Grbl keeps beside startup line `n`.
abbrev pub IsOther : ℕ → Item → Type 0
IsOther n (startup_line k) = (k < 2) × (k ≢ n)
IsOther n build_info = Unit
IsOther n (coordinates k) = k ≤ 7
IsOther n global_settings = Unit

place-bounded : (n : ℕ) (item : Item) → IsOther n item → place item + size item < 65536
place-bounded n (startup_line k) (p, q) = omega arith
place-bounded n build_info o = omega arith
place-bounded n (coordinates k) p = omega arith
place-bounded n global_settings o = omega arith

place-apart :
    (n : ℕ) (item : Item)
    → n < 2
    → IsOther n item
    → (place item + size item < startup_address n)
      ⊎ (startup_address n + line_buffer_size < place item)
place-apart n (startup_line k) h (p, q) = ground arith
place-apart n build_info h o = inr (omega arith)
place-apart n (coordinates k) h p = inl (omega arith)
place-apart n global_settings h o = inl (omega arith)

-- Storing startup line 0 or 1 leaves every other record as it was: the other line, the build info,
-- the eight coordinate records and the global settings.
pub settings_store_startup_line-keeps :
    (hw : Programming) (n : ℕ) (item : Item) (line : List ℕ) (m : Storage)
    → IsDocumented hw
    → IsBytes m.memory
    → All IsByte line
    → length line ≡ line_buffer_size
    → n < 2
    → IsOther n item
    → memcpy_from_eeprom_with_checksum
        (place item)
        (size item)
        (settings_store_startup_line hw n line m).memory
      ≡ memcpy_from_eeprom_with_checksum (place item) (size item) m.memory
unfolding settings_store_startup_line
settings_store_startup_line-keeps hw n item line m doc b s l h o =
    memcpy_from-memcpy_to_other hw doc (startup_address n) line (place item) (size item) m.memory b
      s (omega arith) (place-bounded n item o) (ground (arith, place-apart n item h o))

-- The index of a startup line is not checked: line 2 is written over the build info, whose first byte
-- becomes byte 12 of the line.
pub startup_line-overlaps :
    (hw : Programming) (line : List ℕ) (m : Storage)
    → IsDocumented hw
    → IsBytes m.memory
    → All IsByte line
    → length line ≡ line_buffer_size
    → (settings_store_startup_line hw 2 line m).memory eeprom_addr_build_info ≡ get_or line 12 0
unfolding settings_store_startup_line
startup_line-overlaps hw line m doc b s l =
    memcpy_to-at hw doc (startup_address 2) line m.memory 12 b s (omega arith) (omega arith)
