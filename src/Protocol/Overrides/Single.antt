-- ===== src/Protocol/Overrides/Single.antt =====
-- What the five commands of a percentage override add up to when several are pending at once.
use tele_handwriter.Base.{ℕ, ◌+◌, ◌-◌, ◌≤◌, ◌<◌, ◌≡◌, if◌then◌else◌, min, max, arith}
use tele_handwriter.Base.Bits.{bit_istrue}
use tele_handwriter.System.{
  exec_feed_ovr_reset, exec_feed_ovr_coarse_plus, exec_feed_ovr_coarse_minus,
  exec_feed_ovr_fine_plus, exec_feed_ovr_fine_minus,
}
use tele_handwriter.Protocol.Overrides.{
  new_override, max_override, min_override, default_override, coarse_increment, fine_increment,
}

-- The amount of a command if it is pending.
abbrev pub pending : ℕ → ℕ → ℕ → ℕ
pending rt_exec mask amount = if bit_istrue rt_exec mask then amount else 0

-- What the pending commands raise the percentage to, and what they take off again.
abbrev pub raised : ℕ → ℕ → ℕ
raised rt_exec value =
    (if bit_istrue rt_exec exec_feed_ovr_reset then default_override else value)
    + pending rt_exec exec_feed_ovr_coarse_plus coarse_increment
    + pending rt_exec exec_feed_ovr_fine_plus fine_increment

abbrev pub lowered : ℕ → ℕ
lowered rt_exec =
    pending rt_exec exec_feed_ovr_coarse_minus coarse_increment
    + pending rt_exec exec_feed_ovr_fine_minus fine_increment

-- From a percentage in range, the pending commands together change it by the sum of their amounts,
-- limited to the range, as long as they do not take off more than there is; if they do, the
-- uint8_t wraps and the result is the maximum.
pub new_override_lem :
    (rt_exec value : ℕ)
    → min_override ≤ value
    → value ≤ max_override
    → (lowered rt_exec ≤ raised rt_exec value
        → new_override rt_exec value
          ≡ max (min (raised rt_exec value - lowered rt_exec) max_override) min_override)
      × (raised rt_exec value < lowered rt_exec → new_override rt_exec value ≡ max_override)
unfolding new_override
new_override_lem rt_exec value lo hi = (λ h. ground arith, λ h. ground arith)
