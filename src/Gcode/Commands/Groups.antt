-- ===== src/Gcode/Commands/Groups.antt =====
-- The modal groups of the command words in grbl/gcode.h, as a table.
use tele_handwriter.Base.{ℕ, ◌≡◌, [], ◌∷◌, ◌==◌, if◌then◌else◌, arith}
use tele_handwriter.Gcode.{ok, Block, among}
use tele_handwriter.Gcode.Commands.{
  Command, g_command, m_command, non_modal, axis_non_modal, motion, axis_motion, distance,
  tool_length,
}

-- The modal group of a `G` word.
abbrev pub g_group : ℕ → ℕ → ℕ
g_group int_value mantissa =
    if among int_value (4 ∷ 10 ∷ 28 ∷ 30 ∷ 53 ∷ 92 ∷ [])
    then 0
    else if among int_value (0 ∷ 1 ∷ 2 ∷ 3 ∷ 38 ∷ 80 ∷ [])
    then 1
    else if among int_value (17 ∷ 18 ∷ 19 ∷ [])
    then 2
    else if among int_value (90 ∷ 91 ∷ [])
    then (if mantissa == 0 then 3 else 4)
    else if among int_value (93 ∷ 94 ∷ [])
    then 5
    else if among int_value (20 ∷ 21 ∷ [])
    then 6
    else if int_value == 40
    then 7
    else if among int_value (43 ∷ 49 ∷ [])
    then 8
    else if int_value == 61
    then 10
    else 9

-- The modal group of an `M` word.
abbrev pub m_group : ℕ → ℕ
m_group int_value =
    if among int_value (0 ∷ 1 ∷ 2 ∷ 30 ∷ [])
    then 11
    else if among int_value (3 ∷ 4 ∷ 5 ∷ [])
    then 12
    else 13

module _ {ℓ} {W : Type ℓ} where
  -- A command with the group `group`, whose block has the words of `b`.
  abbrev pub IsIn : ℕ → Block W → Command W → Type 0
  IsIn group b c =
      (c.word_bit ≡ group)
      × (c.block.command_words ≡ b.command_words)
      × (c.block.value_words ≡ b.value_words)

  pub m_command-IsIn :
      (int_value : ℕ) (b : Block W) (c : Command W)
      → m_command int_value b ≡ ok c
      → IsIn (m_group int_value) b c
  unfolding m_command
  m_command-IsIn int_value b c e = ground (arith, e)

  pub g_command-IsIn :
      (int_value mantissa : ℕ) (b : Block W) (c : Command W)
      → g_command int_value mantissa b ≡ ok c
      → IsIn (g_group int_value mantissa) b c
  unfolding g_command non_modal axis_non_modal motion axis_motion distance tool_length
  g_command-IsIn int_value mantissa b c e = ground (arith, e)
