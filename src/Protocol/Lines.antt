-- ===== src/Protocol/Lines.antt =====
-- The primary loop of `protocol_main_loop` in grbl/protocol.c, lines 71 to 152: the line filter and
-- the dispatch of a line. A character is a byte, the terminator is 0; `serial_read` is in Serial.
pub mod Filter
use tele_handwriter.Base.{
  ℕ, zero, suc, ◌+◌, ◌-◌, Bool, true, false, not, ◌&&◌, ◌||◌, List, [], ◌∷◌, ◌==◌, leb,
  if◌then◌else◌, bit_or, bit_and, set, get_or, take, replicate,
}
use tele_handwriter.Base.Bits.{bit_istrue, bit_not8}
use tele_handwriter.System.{Sys, state_alarm, state_jog}

abbrev pub line_buffer_size : ℕ
line_buffer_size = 80

abbrev pub line_flag_overflow : ℕ
line_flag_overflow = 1

abbrev pub line_flag_comment_parentheses : ℕ
line_flag_comment_parentheses = 2

abbrev pub line_flag_comment_semicolon : ℕ
line_flag_comment_semicolon = 4

pub record Reader : Type 0 where
  pub line : List ℕ
  pub char_counter : ℕ
  pub line_flags : ℕ

abbrev pub store : ℕ → Reader → Reader
store c r = record r { line = set r.line r.char_counter c; char_counter = suc r.char_counter }

abbrev pub flag_line : ℕ → Reader → Reader
flag_line mask r = record r { line_flags = bit_or r.line_flags mask }

-- `c-'a'+'A'` for a lower case letter.
unfoldable pub upcase : ℕ → ℕ
upcase c = if leb 97 c && leb c 122 then c - 97 + 65 else c

-- Lines 113 to 148: a character that does not end the line.
pub filter_char : ℕ → Reader → Reader
filter_char c r =
    let closed = record r {
      line_flags = bit_and r.line_flags (bit_not8 line_flag_comment_parentheses);
    } in
    let commented =
      if c == 41 && bit_istrue r.line_flags line_flag_comment_parentheses then closed else r in
    if not (r.line_flags == 0)
    then commented
    else if leb c 32
    then r
    else if c == 47
    then r
    else if c == 40
    then flag_line line_flag_comment_parentheses r
    else if c == 59
    then flag_line line_flag_comment_semicolon r
    else if leb (line_buffer_size - 1) r.char_counter
    then flag_line line_flag_overflow r
    else store (upcase c) r

-- What becomes of a line. The text handed on is a string, up to its terminator.
pub data Dispatch : Type 0 where
  aborted status_overflow status_ok status_system_gc_lock : Dispatch
  system_execute_line gc_execute_line : List ℕ → Dispatch

-- A C string: the characters before the first 0.
pub c_string : List ℕ → List ℕ
c_string [] = []
c_string (zero ∷ cs) = []
c_string (suc c ∷ cs) = suc c ∷ c_string cs

pub terminated : Reader → List ℕ
terminated r = set r.line r.char_counter 0

-- Lines 81 to 105. `s` is the system state after the checkpoint that starts the end of a line.
pub execute_line : Sys → Reader → Dispatch
execute_line s r =
    let line = terminated r in
    if s.abort
    then aborted
    else if bit_istrue r.line_flags line_flag_overflow
    then status_overflow
    else if get_or line 0 0 == 0
    then status_ok
    else if get_or line 0 0 == 36
    then system_execute_line (c_string line)
    else if bit_istrue s.state (bit_or state_alarm state_jog)
    then status_system_gc_lock
    else gc_execute_line (c_string line)

-- Lines 107 to 109: the line array keeps what it held.
pub next_line : Reader → Reader
next_line r = record r { line = terminated r; line_flags = 0; char_counter = 0 }

abbrev pub is_eol : ℕ → Bool
is_eol c = c == 10 || c == 13

abbrev pub empty_reader : Reader
empty_reader = record { line = replicate line_buffer_size 0; char_counter = 0; line_flags = 0 }

-- The characters of one line, up to its end.
pub feed : List ℕ → Reader → Reader
feed [] r = r
feed (c ∷ cs) r = feed cs (filter_char c r)

-- The loop over a stream of characters, each with the system state that the checkpoint would leave
-- if the character ends a line.
pub main_loop : List (ℕ × Sys) → Reader → List Dispatch
main_loop [] r = []
main_loop ((c, s) ∷ cs) r =
    let rest = main_loop cs (if is_eol c then next_line r else filter_char c r) in
    if not (is_eol c) then rest else if s.abort then aborted ∷ [] else execute_line s r ∷ rest
