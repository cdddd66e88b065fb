-- ===== src/Tests/Lines.antt =====
-- Examples for the line filter of grbl/protocol.c: `g1(up)x2;go` and a line feed.
use tele_handwriter.Base.{ℕ, ◌≡◌, inl, refl, List, [], ◌∷◌, arith}
use tele_handwriter.System.{Sys}
use tele_handwriter.Protocol.Lines.{upcase, empty_reader, feed, main_loop, next_line}
use tele_handwriter.Protocol.Lines.Filter.{plain, clean, next_mode, kept, IsValid}
use tele_handwriter.Protocol.Lines.Filter.Execute.{meaning, IsFresh, main_loop-line}
use tele_handwriter.Tests.{machine}

abbrev typed : List ℕ
typed = 103 ∷ 49 ∷ 40 ∷ 117 ∷ 112 ∷ 41 ∷ 120 ∷ 50 ∷ 59 ∷ 103 ∷ 111 ∷ []

abbrev idle : Sys
idle = (machine 0 0).sys

empty-IsValid : IsValid empty_reader
empty-IsValid = (refl, omega arith)

main_loop-line_example :
    (main_loop
        ((103, idle)
          ∷ (49, idle)
          ∷ (40, idle)
          ∷ (117, idle)
          ∷ (112, idle)
          ∷ (41, idle)
          ∷ (120, idle)
          ∷ (50, idle)
          ∷ (59, idle)
          ∷ (103, idle)
          ∷ (111, idle)
          ∷ (10, idle)
          ∷ [])
        empty_reader
      ≡ meaning idle (clean plain typed) ∷ main_loop [] (next_line (feed typed empty_reader)))
    × IsFresh (next_line (feed typed empty_reader))
main_loop-line_example =
    main_loop-line typed idle 10 [] empty_reader
      (refl, (refl, (refl, (refl, (refl, (refl, (refl, (refl, (refl, (refl, (refl, tt)))))))))))
      refl (inl refl) refl (empty-IsValid, refl, refl)

-- The text that the filter keeps of it: `G1X2`.
typed_text : clean plain typed ≡ 71 ∷ 49 ∷ 88 ∷ 50 ∷ []
unfolding clean next_mode kept upcase
typed_text = refl
