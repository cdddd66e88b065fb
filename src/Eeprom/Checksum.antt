-- ===== src/Eeprom/Checksum.antt =====
-- The checksum of grbl/eeprom.c, whose rotation is written with a logical or.
use tele_handwriter.Base.{ℕ, ◌<◌, ◌≡◌, refl, sym, ◌∙◌, List, [], ◌∷◌, ◌++◌, arith}
use tele_handwriter.Eeprom.{add_checksum}

-- The checksum that the loop computes for a list of bytes.
abbrev pub sum_from : ℕ → List ℕ → ℕ
sum_from checksum [] = checksum
sum_from checksum (byte ∷ bytes) = sum_from (add_checksum checksum byte) bytes

sum_from-append :
    (checksum : ℕ) (bytes : List ℕ) (last : ℕ)
    → sum_from checksum (bytes ++ last ∷ []) ≡ add_checksum (sum_from checksum bytes) last
sum_from-append checksum [] last = refl
sum_from-append checksum (byte ∷ bytes) last =
    sum_from-append (add_checksum checksum byte) bytes last

add_checksum-nonzero : (c d byte : ℕ) → 0 < c → 0 < d → add_checksum c byte ≡ add_checksum d byte
unfolding add_checksum
add_checksum-nonzero c d byte p q = ground arith

-- Two records with the same last byte have the same checksum, as soon as the sum of neither is 0
-- before that byte: a change of any earlier byte that keeps the sum from 0 goes unnoticed.
pub checksum_forgets :
    (before other : List ℕ) (last : ℕ)
    → 0 < sum_from 0 before
    → 0 < sum_from 0 other
    → sum_from 0 (before ++ last ∷ []) ≡ sum_from 0 (other ++ last ∷ [])
checksum_forgets before other last p q =
    sum_from-append 0 before last
    ∙ add_checksum-nonzero (sum_from 0 before) (sum_from 0 other) last p q
    ∙ sym (sum_from-append 0 other last)
