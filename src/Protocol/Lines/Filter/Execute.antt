-- ===== src/Protocol/Lines/Filter/Execute.antt =====
-- The end of a line in grbl/protocol.c, and the loop over lines.
use tele_handwriter.Base.{
  ℕ, zero, suc, ◌-◌, ◌<◌, ◌≡◌, refl, sym, ap, ◌∙◌, subst, true, false, ◌||◌, List, [], ◌∷◌, ◌++◌,
  ◌==◌, ltb, if◌then◌else◌, arith, set, length-set, get_or, take, length, map, All, Bool-cases, inl,
  inr, ltb→lt,
}
use tele_handwriter.System.{Sys, state_alarm, state_jog}
use tele_handwriter.Protocol.Realtime.States.{IsState}
use tele_handwriter.Protocol.Lines.{
  Reader, Dispatch, status_overflow, status_ok, status_system_gc_lock, system_execute_line,
  gc_execute_line, upcase, filter_char, feed, c_string, terminated, execute_line, next_line,
  main_loop, is_eol, line_buffer_size, line_flag_overflow,
}
use tele_handwriter.Protocol.Lines.Filter.{
  Mode, plain, parenthesis, semicolon, clean, kept, next_mode, clean-keep, clean-drop, clean_nil,
  IsValid,
}
use tele_handwriter.Protocol.Lines.Filter.Feed.{Holds, feed-clean, feed-IsValid}
use mathlib.Core.Bool.{false≢true}

abbrev IsText : List ℕ → Type 0
IsText cs = All (λ c. 0 < c) cs

upcase-IsText : (mode : Mode) (c : ℕ) → kept mode c ≡ true → 0 < upcase c
unfolding upcase kept
upcase-IsText plain c k = ground arith
upcase-IsText parenthesis c k = absurd (false≢true k)
upcase-IsText semicolon c k = absurd (false≢true k)

clean-IsText : (mode : Mode) (cs : List ℕ) → IsText (clean mode cs)
clean-IsText mode [] = subst IsText (sym (clean_nil mode)) tt
clean-IsText mode (c ∷ cs) = elim (Bool-cases (kept mode c)) [
  | inl k ↦
      subst IsText (sym (clean-keep mode c cs k)) (upcase-IsText mode c k, clean-IsText mode cs)
  | inr k ↦ subst IsText (sym (clean-drop mode c cs k)) (clean-IsText (next_mode mode c) cs)
]

c_string-terminated :
    (xs : List ℕ) (n : ℕ) → n < length xs → IsText (take n xs) → c_string (set xs n 0) ≡ take n xs
unfolding c_string
c_string-terminated [] n h t = absurd (omega arith)
c_string-terminated (x ∷ xs) zero h t = refl
c_string-terminated (zero ∷ xs) (suc n) h t = absurd (omega (arith, t.0))
c_string-terminated (suc x ∷ xs) (suc n) h t =
    ap (λ ys. suc x ∷ ys) (c_string-terminated xs n (omega arith) t.1)

c_string-head : (xs : List ℕ) → get_or (c_string xs) 0 0 ≡ get_or xs 0 0
unfolding c_string
c_string-head [] = refl
c_string-head (zero ∷ xs) = refl
c_string-head (suc x ∷ xs) = refl

-- What a line means: its text, the dispatch that the text asks for.
abbrev pub meaning : Sys → List ℕ → Dispatch
meaning s text =
    if ltb (line_buffer_size - 1) (length text)
    then status_overflow
    else if get_or text 0 0 == 0
    then status_ok
    else if get_or text 0 0 == 36
    then system_execute_line text
    else if s.state == state_alarm || s.state == state_jog
    then status_system_gc_lock
    else gc_execute_line text

c_string-Holds :
    (r : Reader) (text : List ℕ)
    → IsValid r
    → Holds r text
    → IsText text
    → c_string (terminated r) ≡ text
unfolding terminated
c_string-Holds r text v h t =
    c_string-terminated r.line r.char_counter (omega (arith, v.0, v.1)) (subst IsText (sym h.0) t)
    ∙ h.0

execute-Holds :
    (s : Sys) (r : Reader) (text : List ℕ)
    → s.abort ≡ false
    → IsState s.state
    → IsValid r
    → Holds r text
    → IsText text
    → execute_line s r ≡ meaning s text
unfolding execute_line
execute-Holds s r text a l v h t =
    let string = c_string-Holds r text v h t in
    let head : get_or (terminated r) 0 0 ≡ get_or text 0 0 =
      sym (c_string-head (terminated r)) ∙ ap (λ xs. get_or xs 0 0) string in
    let short : ltb (line_buffer_size - 1) (length text) ≡ false = ground (arith, v.1, h.1) in
    ground (arith, head, short, string, h.2)

execute-overflow :
    (s : Sys) (r : Reader)
    → s.abort ≡ false
    → r.line_flags ≡ line_flag_overflow
    → execute_line s r ≡ status_overflow
unfolding execute_line
execute-overflow s r a e = ground arith

meaning-overflow :
    (s : Sys) (text : List ℕ)
    → ltb (line_buffer_size - 1) (length text) ≡ true
    → meaning s text ≡ status_overflow
meaning-overflow s text e = simp e

execute_line_lem :
    (s : Sys) (cs : List ℕ) (r : Reader)
    → IsState s.state
    → s.abort ≡ false
    → IsValid r
    → r.line_flags ≡ 0
    → r.char_counter ≡ 0
    → execute_line s (feed cs r) ≡ meaning s (clean plain cs)
execute_line_lem s cs r l a v e z =
    let stored = feed-clean cs r v e z in
    let text = clean plain cs in
    elim (Bool-cases (ltb (line_buffer_size - 1) (length text))) [
      | inl long ↦
          execute-overflow s (feed cs r) a
            (stored.1 (ltb→lt (line_buffer_size - 1) (length text) long))
          ∙ sym (meaning-overflow s text long)
      | inr short ↦
          execute-Holds s (feed cs r) text a l (feed-IsValid cs r v) (stored.0 (ground arith))
            (clean-IsText plain cs)
    ]

main_loop-line_from :
    (cs : List ℕ) (s : Sys) (eol : ℕ) (stream : List (ℕ × Sys)) (r : Reader)
    → All (λ c. is_eol c ≡ false) cs
    → is_eol eol ≡ true
    → s.abort ≡ false
    → main_loop (map (λ c. (c, s)) cs ++ (eol, s) ∷ stream) r
      ≡ execute_line s (feed cs r) ∷ main_loop stream (next_line (feed cs r))
unfolding main_loop feed
main_loop-line_from [] s eol stream r h e a = simp (e, a)
main_loop-line_from (c ∷ cs) s eol stream r (k, h) e a =
    simp (k, main_loop-line_from cs s eol stream (filter_char c r) h e a)

-- The reader at the start of a line.
abbrev pub IsFresh : Reader → Type 0
IsFresh r = IsValid r × (r.line_flags ≡ 0) × (r.char_counter ≡ 0)

next_line-IsFresh : (r : Reader) → IsValid r → IsFresh (next_line r)
unfolding next_line terminated
next_line-IsFresh r v = ((length-set r.line r.char_counter 0 ∙ v.0, omega arith), refl, refl)

-- While the program is not aborted, each line of the stream is dispatched once, as the reference text
-- of its characters asks, and the reader is ready for the next line.
pub main_loop-line :
    (cs : List ℕ) (s : Sys) (eol : ℕ) (stream : List (ℕ × Sys)) (r : Reader)
    → All (λ c. is_eol c ≡ false) cs
    → is_eol eol ≡ true
    → IsState s.state
    → s.abort ≡ false
    → IsFresh r
    → (main_loop (map (λ c. (c, s)) cs ++ (eol, s) ∷ stream) r
        ≡ meaning s (clean plain cs) ∷ main_loop stream (next_line (feed cs r)))
      × IsFresh (next_line (feed cs r))
main_loop-line cs s eol stream r h e l a (v, f, z) = (
  main_loop-line_from cs s eol stream r h e a
      ∙ ap (λ d. d ∷ main_loop stream (next_line (feed cs r))) (execute_line_lem s cs r l a v f z),
  next_line-IsFresh (feed cs r) (feed-IsValid cs r v),
)
