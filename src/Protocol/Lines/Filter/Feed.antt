-- ===== src/Protocol/Lines/Filter/Feed.antt =====
-- Whole lines through the filter.
use tele_handwriter.Base.{
  ℕ, suc, ◌+◌, ◌-◌, ◌<◌, ◌≡◌, refl, sym, ap, ◌∙◌, subst, true, false, ltb→lt, ap₂, inl, inr, List,
  [], ◌∷◌, ◌++◌, ltb, arith, take, length, append_assoc, append-nil, length-set, length-append,
  Bool-cases,
}
use tele_handwriter.Base.Bits.{bit_istrue}
use tele_handwriter.Protocol.Lines.{
  Reader, upcase, filter_char, feed, store, line_buffer_size, line_flag_overflow,
}
use tele_handwriter.Protocol.Lines.Filter.{
  IsValid, Mode, clean, clean-drop, clean-keep, clean_nil, contents, drop_lem, drop_same, full_lem,
  keep_lem, kept, mode_flags, next_mode, overflow_lem, parenthesis, plain, semicolon, take-set_self,
}

feed-overflow : (cs : List ℕ) (r : Reader) → r.line_flags ≡ line_flag_overflow → feed cs r ≡ r
unfolding feed
feed-overflow [] r e = refl
feed-overflow (c ∷ cs) r e =
    let same = overflow_lem c r e in
    feed-overflow cs (filter_char c r)
      (subst (λ (q : Reader). q.line_flags ≡ line_flag_overflow) (sym same) e)
    ∙ same

filter_char-IsValid : (c : ℕ) (r : Reader) → IsValid r → IsValid (filter_char c r)
unfolding filter_char
filter_char-IsValid c r v = ground (arith, length-set r.line r.char_counter (upcase c))

-- The line array keeps its length and the counter stays within it, with room for the terminator.
pub feed-IsValid : (cs : List ℕ) (r : Reader) → IsValid r → IsValid (feed cs r)
unfolding feed
feed-IsValid [] r v = v
feed-IsValid (c ∷ cs) r v = feed-IsValid cs (filter_char c r) (filter_char-IsValid c r v)

-- The part of a line after its first character, when that is dropped or stored.
module _ (mode : Mode) (c : ℕ) (cs : List ℕ) (r : Reader) (e : r.line_flags ≡ mode_flags mode) where
  rest_length_drop :
      kept mode c ≡ false
      → (filter_char c r).char_counter + length (clean (next_mode mode c) cs)
        ≡ r.char_counter + length (clean mode (c ∷ cs))
  rest_length_drop k =
      ap₂ (λ x y. x + y) ((drop_same mode c r e k).1) (ap length (sym (clean-drop mode c cs k)))

  rest_length_keep :
      kept mode c ≡ true
      → suc r.char_counter + length (clean mode cs) ≡ r.char_counter + length (clean mode (c ∷ cs))
  rest_length_keep k = omega (arith, ap length (clean-keep mode c cs k))

feed-overflows :
    (cs : List ℕ) (mode : Mode) (r : Reader)
    → IsValid r
    → r.line_flags ≡ mode_flags mode
    → line_buffer_size - 1 < r.char_counter + length (clean mode cs)
    → (feed cs r).line_flags ≡ line_flag_overflow
unfolding feed
feed-overflows [] mode r v e h = absurd (omega (arith, v.1, ap length (clean_nil mode)))
feed-overflows (c ∷ cs) mode r v e h = elim (Bool-cases (kept mode c)) [
  | inr k ↦
      feed-overflows cs (next_mode mode c) (filter_char c r) (filter_char-IsValid c r v)
        (drop_lem mode c r e k) (omega (arith, rest_length_drop mode c cs r e k))
  | inl k ↦ elim (Bool-cases (ltb r.char_counter (line_buffer_size - 1))) [
    | inl room ↦
        let stored = keep_lem mode c r e k (ltb→lt r.char_counter (line_buffer_size - 1) room) in
        ap (λ (q : Reader). (feed cs q).line_flags) stored
        ∙ feed-overflows cs mode (store (upcase c) r)
            (subst IsValid stored (filter_char-IsValid c r v)) e
            (omega (arith, rest_length_keep mode c cs r e k))
    | inr none ↦
        let full = full_lem mode c r e k (ground (arith, v.1)) in
        ap (λ (q : Reader). q.line_flags) (feed-overflow cs (filter_char c r) full) ∙ full
  ]
]

contents-store : (c : ℕ) (r : Reader) → IsValid r → contents (store c r) ≡ contents r ++ c ∷ []
contents-store c r v = take-set_self r.line r.char_counter c (omega (arith, v.0, v.1))

-- The line holds the text and shows no overflow.
abbrev pub Holds : Reader → List ℕ → Type 0
Holds r text =
    (contents r ≡ text)
    × (r.char_counter ≡ length text)
    × (bit_istrue r.line_flags line_flag_overflow ≡ false)

mode_flags-fits : (mode : Mode) → bit_istrue (mode_flags mode) line_flag_overflow ≡ false
mode_flags-fits plain = refl
mode_flags-fits parenthesis = refl
mode_flags-fits semicolon = refl

contents-drop :
    (mode : Mode) (c : ℕ) (r : Reader)
    → r.line_flags ≡ mode_flags mode
    → kept mode c ≡ false
    → contents (filter_char c r) ≡ contents r
contents-drop mode c r e k =
    let same = drop_same mode c r e k in ap₂ (λ n xs. take n xs) same.1 same.0

feed-fits :
    (cs : List ℕ) (mode : Mode) (r : Reader)
    → IsValid r
    → r.line_flags ≡ mode_flags mode
    → r.char_counter ≡ length (contents r)
    → r.char_counter + length (clean mode cs) < line_buffer_size
    → Holds (feed cs r) (contents r ++ clean mode cs)
unfolding feed
feed-fits [] mode r v e l h =
    let same : contents r ++ clean mode [] ≡ contents r =
      ap (λ xs. contents r ++ xs) (clean_nil mode) ∙ append-nil (contents r) in
    (sym same, l ∙ ap length (sym same), rw e (mode_flags-fits mode))
feed-fits (c ∷ cs) mode r v e l h = elim (Bool-cases (kept mode c)) [
  | inr k ↦
      let n = filter_char c r in
      let same = contents-drop mode c r e k in
      let text : contents n ++ clean (next_mode mode c) cs ≡ contents r ++ clean mode (c ∷ cs) =
        ap₂ (λ xs ys. xs ++ ys) same (sym (clean-drop mode c cs k)) in
      subst (Holds (feed cs n)) text (
        feed-fits cs (next_mode mode c) n (filter_char-IsValid c r v) (drop_lem mode c r e k)
          ((drop_same mode c r e k).1 ∙ l ∙ ap length (sym same))
          (omega (arith, rest_length_drop mode c cs r e k)))
  | inl k ↦
      let n = store (upcase c) r in
      let stored = keep_lem mode c r e k (omega (arith, rest_length_keep mode c cs r e k)) in
      let grown = contents-store (upcase c) r v in
      let text : contents n ++ clean mode cs ≡ contents r ++ clean mode (c ∷ cs) =
        ap (λ xs. xs ++ clean mode cs) grown
        ∙ append_assoc (contents r) (upcase c ∷ []) (clean mode cs)
        ∙ ap (λ xs. contents r ++ xs) (sym (clean-keep mode c cs k)) in
      subst (λ q. Holds (feed cs q) (contents r ++ clean mode (c ∷ cs))) (sym stored)
        (subst (Holds (feed cs n)) text (
          feed-fits cs mode n (subst IsValid stored (filter_char-IsValid c r v)) e
            (omega (arith, l, ap length grown, length-append (contents r) (upcase c ∷ [])))
            (omega (arith, rest_length_keep mode c cs r e k))))
]

-- From an empty line, the filter stores exactly the text that the reference keeps when it fits in 79
-- characters, and otherwise the overflow flag is set.
pub feed-clean :
    (cs : List ℕ) (r : Reader)
    → IsValid r
    → r.line_flags ≡ 0
    → r.char_counter ≡ 0
    → let text = clean plain cs in
      (length text < line_buffer_size → Holds (feed cs r) text)
      × (line_buffer_size - 1 < length text → (feed cs r).line_flags ≡ line_flag_overflow)
feed-clean cs r v e z = (
  λ h.
      subst (λ xs. Holds (feed cs r) (xs ++ clean plain cs)) (ap (λ n. take n r.line) z)
        (feed-fits cs plain r v e (z ∙ sym (ap (λ n. length (take n r.line)) z))
          (omega (arith, z))),
  λ h. feed-overflows cs plain r v e (omega (arith, z)),
)
