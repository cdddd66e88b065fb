-- ===== src/Delay.antt =====
-- `delay_us` of grbl/nuts_bolts.c: the waits that it makes of a delay, each a call of _delay_us or
-- _delay_ms, in microseconds.
use tele_handwriter.Base.{
  ℕ, zero, suc, ◌+◌, ◌-◌, ◌≤◌, ◌≡◌, List, [], ◌∷◌, ◌==◌, ltb, if◌then◌else◌, arith,
}

-- The longest wait that the rest of the delay is given.
pub next_wait : ℕ → ℕ
next_wait us = if ltb us 10 then 1 else if ltb us 100 then 10 else if ltb us 1000 then 100 else 1000

-- The loop, for at most `fuel` waits.
pub delay_us : ℕ → ℕ → List ℕ
delay_us zero us = []
delay_us (suc fuel) us =
    let rest = delay_us fuel (us - next_wait us) in if us == 0 then [] else next_wait us ∷ rest

-- The waits together.
abbrev pub sum : List ℕ → ℕ
sum [] = 0
sum (wait ∷ waits) = wait + sum waits

-- The loop ends after at most `us` waits, and together they last exactly `us` microseconds.
pub sum-delay_us : (fuel us : ℕ) → us ≤ fuel → sum (delay_us fuel us) ≡ us
unfolding delay_us next_wait
sum-delay_us zero us h = omega arith
sum-delay_us (suc fuel) us h = ground (arith, sum-delay_us fuel (us - next_wait us))
