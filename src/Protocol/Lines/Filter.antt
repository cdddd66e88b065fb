-- ===== src/Protocol/Lines/Filter.antt =====
-- The line filter, character by character, beside a definition of what is kept of a line.
pub mod Feed
pub mod Execute
use tele_handwriter.Base.{
  ℕ, zero, suc, ◌+◌, ◌-◌, ◌<◌, ◌≤◌, ◌≡◌, ◌≢◌, refl, sym, ap, ◌∙◌, subst, Bool, true, false, not,
  ◌&&◌, ◌||◌, ltb→lt, ap₂, inl, inr, List, [], ◌∷◌, ◌++◌, ◌==◌, leb, ltb, if◌then◌else◌, arith, set,
  take, length, append_assoc, append-nil, length-set, length-append, All, bit_and, Bool-cases,
}
use tele_handwriter.Base.Bits.{bit_istrue}
use mathlib.Core.Bool.{false≢true}
use tele_handwriter.Protocol.Lines.{
  Reader, upcase, filter_char, feed, store, flag_line, line_buffer_size, line_flag_overflow,
  line_flag_comment_parentheses, line_flag_comment_semicolon,
}

pub data Mode : Type 0 where
  plain parenthesis semicolon : Mode

unfoldable pub next_mode : Mode → ℕ → Mode
next_mode plain c = if c == 40 then parenthesis else if c == 59 then semicolon else plain
next_mode parenthesis c = if c == 41 then plain else parenthesis
next_mode semicolon c = semicolon

unfoldable pub kept : Mode → ℕ → Bool
kept plain c = not (leb c 32 || c == 47 || c == 40 || c == 59)
kept parenthesis c = false
kept semicolon c = false

-- The text of a line without comments, spaces, control characters and block deletes, in upper case.
unfoldable pub clean : Mode → List ℕ → List ℕ
clean mode [] = []
clean mode (c ∷ cs) =
    let rest = clean (next_mode mode c) cs in if kept mode c then upcase c ∷ rest else rest

abbrev mode_flags : Mode → ℕ
mode_flags plain = 0
mode_flags parenthesis = line_flag_comment_parentheses
mode_flags semicolon = line_flag_comment_semicolon

abbrev pub IsValid : Reader → Type 0
IsValid r = (length r.line ≡ line_buffer_size) × (r.char_counter < line_buffer_size)

abbrev pub contents : Reader → List ℕ
contents r = take r.char_counter r.line

take-set_self :
    (xs : List ℕ) (i v : ℕ) → i < length xs → take (suc i) (set xs i v) ≡ take i xs ++ v ∷ []
take-set_self [] i v h = absurd (omega arith)
take-set_self (x ∷ xs) zero v h = refl
take-set_self (x ∷ xs) (suc i) v h = ap (λ ys. x ∷ ys) (take-set_self xs i v (omega arith))

-- One character, in each mode.
drop_lem :
    (mode : Mode) (c : ℕ) (r : Reader)
    → r.line_flags ≡ mode_flags mode
    → kept mode c ≡ false
    → (filter_char c r).line_flags ≡ mode_flags (next_mode mode c)
unfolding filter_char kept next_mode
drop_lem plain c r e k = ground (arith, e)
drop_lem parenthesis c r e k = ground (arith, e)
drop_lem semicolon c r e k = ground (arith, e)

drop_same :
    (mode : Mode) (c : ℕ) (r : Reader)
    → r.line_flags ≡ mode_flags mode
    → kept mode c ≡ false
    → ((filter_char c r).line ≡ r.line) × ((filter_char c r).char_counter ≡ r.char_counter)
unfolding filter_char kept
drop_same plain c r e k = (ground arith, ground arith)
drop_same parenthesis c r e k = (ground arith, ground arith)
drop_same semicolon c r e k = (ground arith, ground arith)

keep_lem :
    (mode : Mode) (c : ℕ) (r : Reader)
    → r.line_flags ≡ mode_flags mode
    → kept mode c ≡ true
    → r.char_counter < line_buffer_size - 1
    → filter_char c r ≡ store (upcase c) r
unfolding filter_char kept
keep_lem plain c r e k h = ground arith
keep_lem parenthesis c r e k h = absurd (false≢true k)
keep_lem semicolon c r e k h = absurd (false≢true k)

full_lem :
    (mode : Mode) (c : ℕ) (r : Reader)
    → r.line_flags ≡ mode_flags mode
    → kept mode c ≡ true
    → r.char_counter ≡ line_buffer_size - 1
    → (filter_char c r).line_flags ≡ line_flag_overflow
unfolding filter_char kept
full_lem plain c r e k h = ground arith
full_lem parenthesis c r e k h = absurd (false≢true k)
full_lem semicolon c r e k h = absurd (false≢true k)

overflow_lem : (c : ℕ) (r : Reader) → r.line_flags ≡ line_flag_overflow → filter_char c r ≡ r
unfolding filter_char
overflow_lem c r e = ground arith

clean-drop :
    (mode : Mode) (c : ℕ) (cs : List ℕ)
    → kept mode c ≡ false
    → clean mode (c ∷ cs) ≡ clean (next_mode mode c) cs
unfolding clean
clean-drop mode c cs k = simp k

clean-keep :
    (mode : Mode) (c : ℕ) (cs : List ℕ)
    → kept mode c ≡ true
    → clean mode (c ∷ cs) ≡ upcase c ∷ clean mode cs
unfolding clean next_mode kept
clean-keep plain c cs k = ground arith
clean-keep parenthesis c cs k = absurd (false≢true k)
clean-keep semicolon c cs k = absurd (false≢true k)

clean_nil : (mode : Mode) → clean mode [] ≡ []
unfolding clean
clean_nil mode = refl
