-- ===== src/Gcode/State.antt =====
-- The state of the g-code parser of grbl/gcode.c and gcode.h: `gc_state`, what is known of a block
-- after its error check, and the results of a check.
use tele_handwriter.Base.{ℕ, ◌-◌, ◌≡◌, refl, Bool, Option, none, some, ◌==◌, if◌then◌else◌, bit_and}
use tele_handwriter.Gcode.{Modal, Values, Block}

-- A `float` array of N_AXIS.
pub record Vector {ℓ} (W : Type ℓ) : Type ℓ where
  pub on_x : W
  pub on_y : W
  pub on_z : W

module _ {ℓ} {W : Type ℓ} where
  abbrev pub at : Vector W → ℕ → W
  at v idx = if idx == 0 then v.on_x else if idx == 1 then v.on_y else v.on_z

  abbrev pub put_at : ℕ → W → Vector W → Vector W
  put_at idx value v =
      if idx == 0
      then record v { on_x = value }
      else if idx == 1
      then record v { on_y = value }
      else record v { on_z = value }

  -- A loop over the axes.
  abbrev pub axes : (ℕ → W) → Vector W
  axes f = record { on_x = f 0; on_y = f 1; on_z = f 2 }

  abbrev pub xyz : Values W → Vector W
  xyz v = record { on_x = v.x; on_y = v.y; on_z = v.z }

  abbrev pub ijk : Values W → Vector W
  ijk v = record { on_x = v.i; on_y = v.j; on_z = v.k }

  abbrev pub put_xyz : Vector W → Values W → Values W
  put_xyz u v = record v { x = u.on_x; y = u.on_y; z = u.on_z }

  abbrev pub put_ijk : Vector W → Values W → Values W
  put_ijk u v = record v { i = u.on_x; j = u.on_y; k = u.on_z }

-- What the code does with a `float`. `byte` is the uint8_t that trunc() is stored in.
pub record Arithmetic {ℓ} (W : Type ℓ) : Type ℓ where
  pub nought : W
  pub plus : W → W → W
  pub minus : W → W → W
  pub times : W → W → W
  pub divide : W → W → W
  pub negate : W → W
  pub sqrt : W → W
  pub hypot_f : W → W → W
  pub fabs : W → W
  pub eq : W → W → Bool
  -- `memcmp` finds no difference.
  pub same : W → W → Bool
  pub lt : W → W → Bool
  pub byte : W → ℕ
  pub mm_per_inch : W
  pub four : W
  pub half : W
  -- 0.005, 0.5 and 0.001, the tolerances of an arc.
  pub least_error : W
  pub most_error : W
  pub relative_error : W

-- `parser_state_t`
pub record Parser {ℓ} (W : Type ℓ) : Type ℓ where
  pub modal : Modal
  pub spindle_speed : W
  pub feed_rate : W
  pub tool : ℕ
  pub line_number : ℕ
  pub position : Vector W
  pub coord_system : Vector W
  pub coord_offset : Vector W
  pub tool_length_offset : W

-- The coordinate data in the EEPROM, `none` where the checksum does not agree.
abbrev pub Coords {ℓ} : Type ℓ → Type ℓ
Coords W = ℕ → Option (Vector W)

-- A block and the local variables of its check: gc_parser_flags, coord_select, block_coord_system.
pub record Checked {ℓ} (W : Type ℓ) : Type ℓ where
  pub block : Block W
  pub parser_flags : ℕ
  pub coord_select : ℕ
  pub block_coord_system : Vector W

-- A check passes, fails with a status, or fails since coordinate data cannot be read. The last one
-- overwrites the data with zeros.
pub data Check {ℓ} (A : Type ℓ) : Type ℓ where
  pass : A → Check A
  refuse : ℕ → Check A
  unread : ℕ → Check A

-- `settings_read_coord_data(coord_select, coord_data)`
abbrev pub read_coord {ℓ} : {W : Type ℓ} → Coords W → ℕ → Check (Vector W)
read_coord coords coord_select = elim (coords coord_select) [
  | none ↦ unread coord_select
  | some stored ↦ pass stored
]

infixl 5 ◌>>=◌ ◌>>◌
abbrev pub ◌>>=◌ {ℓ κ} : {A : Type ℓ} {B : Type κ} → Check A → (A → Check B) → Check B
pass a >>= f = f a
refuse status >>= f = refuse status
unread coord_select >>= f = unread coord_select

abbrev pub ◌>>◌ {ℓ} : {B : Type ℓ} → Check (Unit {0}) → Check B → Check B
m >> k = m >>= λ _. k

-- `if (test) { FAIL(status); }`
abbrev pub refuse_if : Bool → ℕ → Check (Unit {0})
refuse_if test status = if test then refuse status else pass tt

-- Inversion of a chain that passes.
pub >>=-eq-pass {ℓ κ} :
    {A : Type ℓ} {B : Type κ} (m : Check A) (f : A → Check B) {b : B}
    → (m >>= f) ≡ pass b
    → (a : A) × (m ≡ pass a) × (f a ≡ pass b)
>>=-eq-pass (pass a) f h = (a, refl, h)
>>=-eq-pass (refuse status) f h = cc
>>=-eq-pass (unread coord_select) f h = cc

-- `bit_false(x, mask)` on a uint16_t.
abbrev pub bit_false : ℕ → ℕ → ℕ
bit_false x mask = bit_and x (65535 - mask)

module _ {ℓ} {W : Type ℓ} where
  abbrev pub put_values : (Values W → Values W) → Checked W → Checked W
  put_values f c = record c { block = record c.block { values = f c.block.values } }

  abbrev pub clear_words : ℕ → Checked W → Checked W
  clear_words mask c = record c {
    block = record c.block { value_words = bit_false c.block.value_words mask };
  }
