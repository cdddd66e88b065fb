-- ===== src/Settings.antt =====
-- grbl/settings.c and the addresses of grbl/settings.h: the records that are kept in the EEPROM. The
-- settings and the coordinates are kept as their bytes; a read gives the bytes and `true`, or
-- `false` after the default was stored. FORCE_BUFFER_SYNC_DURING_EEPROM_WRITE is defined.
pub mod Layout
pub mod Global
use tele_handwriter.Base.{
  ℕ, zero, suc, ◌+◌, ◌*◌, Bool, true, false, List, [], ◌∷◌, ◌==◌, if◌then◌else◌, replicate, set, u8,
  bit_and,
}
use tele_handwriter.Base.Bits.{bit_istrue}
use tele_handwriter.Eeprom.{
  Programming, Memory, eeprom_get_char, eeprom_put_char, memcpy_to_eeprom_with_checksum,
  memcpy_from_eeprom_with_checksum,
}

abbrev pub line_buffer_size : ℕ
line_buffer_size = 80

abbrev pub settings_version : ℕ
settings_version = 10

abbrev pub eeprom_addr_global : ℕ
eeprom_addr_global = 1

abbrev pub eeprom_addr_parameters : ℕ
eeprom_addr_parameters = 512

abbrev pub eeprom_addr_startup_block : ℕ
eeprom_addr_startup_block = 768

abbrev pub eeprom_addr_build_info : ℕ
eeprom_addr_build_info = 942

-- `sizeof(settings_t)`: 19 floats of four bytes, one uint16_t and seven uint8_t.
abbrev pub settings_size : ℕ
settings_size = 85

-- `sizeof(float)*N_AXIS`
abbrev pub coord_size : ℕ
coord_size = 12

abbrev pub startup_address : ℕ → ℕ
startup_address n = n * (line_buffer_size + 1) + eeprom_addr_startup_block

abbrev pub coord_address : ℕ → ℕ
coord_address coord_select = coord_select * (coord_size + 1) + eeprom_addr_parameters

-- The EEPROM, and how often protocol_buffer_synchronize was called, which leaves the EEPROM alone.
pub record Storage : Type 0 where
  pub memory : Memory
  pub synchronized : ℕ

abbrev call_synchronize : Storage → Storage
call_synchronize m = record m { synchronized = m.synchronized + 1 }

abbrev on_memory : (Memory → Memory) → Storage → Storage
on_memory f m = record m { memory = f m.memory }

module _ (hw : Programming) where
  pub settings_store_startup_line : ℕ → List ℕ → Storage → Storage
  settings_store_startup_line n line m =
      on_memory (memcpy_to_eeprom_with_checksum hw (startup_address n) line) (call_synchronize m)

  pub settings_store_build_info : List ℕ → Storage → Storage
  settings_store_build_info line m =
      on_memory (memcpy_to_eeprom_with_checksum hw eeprom_addr_build_info line) m

  pub settings_write_coord_data : ℕ → List ℕ → Storage → Storage
  settings_write_coord_data coord_select coord_data m =
      on_memory (memcpy_to_eeprom_with_checksum hw (coord_address coord_select) coord_data)
        (call_synchronize m)

  pub write_global_settings : List ℕ → Storage → Storage
  write_global_settings settings m =
      on_memory
        (λ x.
          memcpy_to_eeprom_with_checksum hw eeprom_addr_global settings
            (eeprom_put_char hw 0 settings_version x))
        m

  -- The line, whether it was read, and the memory after a repair. A bad line is cut at its start.
  pub settings_read_startup_line : ℕ → Storage → List ℕ × Bool × Storage
  settings_read_startup_line n m =
      let line = memcpy_from_eeprom_with_checksum (startup_address n) line_buffer_size m.memory in
      let empty = set line.0 0 0 in
      if line.1 then (line.0, true, m) else (empty, false, settings_store_startup_line n empty m)

  pub settings_read_build_info : Storage → List ℕ × Bool × Storage
  settings_read_build_info m =
      let line =
        memcpy_from_eeprom_with_checksum eeprom_addr_build_info line_buffer_size m.memory in
      let empty = set line.0 0 0 in
      if line.1 then (line.0, true, m) else (empty, false, settings_store_build_info empty m)

  pub settings_read_coord_data : ℕ → Storage → List ℕ × Bool × Storage
  settings_read_coord_data coord_select m =
      let coord =
        memcpy_from_eeprom_with_checksum (coord_address coord_select) coord_size m.memory in
      let origin = replicate coord_size 0 in
      if coord.1
      then (coord.0, true, m)
      else (origin, false, settings_write_coord_data coord_select origin m)

-- The settings that the memory held, and whether they are valid: a bad version reads nothing, a bad
-- checksum leaves what was read in `settings`.
pub read_global_settings : List ℕ → Memory → List ℕ × Bool
read_global_settings settings m =
    if eeprom_get_char 0 m == settings_version
    then memcpy_from_eeprom_with_checksum eeprom_addr_global settings_size m
    else (settings, false)

-- `for (idx=0; idx <= SETTING_INDEX_NCOORD; idx++)` writes the origin to the first `n` records.
restore_coords : Programming → ℕ → Storage → Storage
restore_coords hw zero m = m
restore_coords hw (suc n) m =
    settings_write_coord_data hw n (replicate coord_size 0) (restore_coords hw n m)

-- `eeprom_put_char(addr, 0); eeprom_put_char(addr+1, 0);`
clear_line : Programming → ℕ → Storage → Storage
clear_line hw addr m =
    on_memory (λ x. eeprom_put_char hw (addr + 1) 0 (eeprom_put_char hw addr 0 x)) m

-- The settings with their defaults, as bytes, are a parameter. The order of the coordinate records
-- does not matter, since they are apart.
pub settings_restore : Programming → List ℕ → ℕ → Storage → Storage
settings_restore hw defaults restore_flag m =
    let a = if bit_istrue restore_flag 1 then write_global_settings hw defaults m else m in
    let b = if bit_istrue restore_flag 2 then restore_coords hw 8 a else a in
    let c =
      if bit_istrue restore_flag 4
      then clear_line hw (startup_address 1) (clear_line hw (startup_address 0) b)
      else b in
    if bit_istrue restore_flag 8 then clear_line hw eeprom_addr_build_info c else c

-- `settings_init`: the settings of the EEPROM, or the defaults in their place.
pub settings_init : Programming → List ℕ → List ℕ → Storage → List ℕ × Storage
settings_init hw defaults settings m =
    let read = read_global_settings settings m.memory in
    if read.1 then (read.0, m) else (defaults, settings_restore hw defaults 255 m)
