-- ===== src/Clock.antt =====
-- Instants and durations of `std::time`, in nanoseconds. An operation that reads the clock takes the
-- instant as an argument.
use chainlightning.Base.{ℕ, ◌-◌, ◌*◌}

-- `Duration::from_millis`.
abbrev pub from_millis : ℕ → ℕ
from_millis ms = ms * 1_000_000

abbrev pub from_secs : ℕ → ℕ
from_secs s = s * 1_000_000_000

-- `t.elapsed()` at `now`: it saturates at zero.
abbrev pub elapsed : ℕ → ℕ → ℕ
elapsed now t = now - t
