-- ===== src/Progress/Steps.antt =====
-- On the numbers that the overlay passes, the two moves are a capped sum and a cut-off difference.
use omarchy_hackertyper.Base.{ℕ, ◌+◌, ◌-◌, min, max, ◌≡◌, arith}
use omarchy_hackertyper.Number.{number}
use omarchy_hackertyper.Progress.{advance, retreat}

-- `advance` on natural numbers is the sum of the index and a step of at least 1, capped at the
-- length.
pub advance-number :
    (index amount length : ℕ)
    → advance (number index) (number amount) (number length)
      ≡ number (min (index + max 1 amount) length)
unfolding advance
advance-number index amount length = ground arith

-- `retreat` on natural numbers takes a step of at least 1 from the index, stopping at 0, and is
-- capped at the length.
pub retreat-number :
    (index amount length : ℕ)
    → retreat (number index) (number amount) (number length)
      ≡ number (min (index - max 1 amount) length)
unfolding retreat
retreat-number index amount length = ground arith
