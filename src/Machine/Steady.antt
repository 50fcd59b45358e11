-- ===== src/Machine/Steady.antt =====
-- What the host's clock is relied on for, and methods that do not hang.
use mrs_fpga_toolkit.Base.{ℕ, ◌<◌, ◌≤◌, ◌≡◌}
use mrs_fpga_toolkit.Machine.Monad.{Bus}

-- `std::chrono::steady_clock` never goes back, and takes time to read. `clock` is the time of a
-- state of the host, which no method can see but through `now`.
pub record IsSteady {S : Type 0} (bus : Bus S) (clock : S → ℕ) : Type 0 where
  pub now_reads : (s : S) → (bus.now s).0 ≡ clock (bus.now s).1
  pub now_ticks : (s : S) → clock s < clock (bus.now s).1
  pub sleep_steady : (ns : ℕ) (s : S) → clock s ≤ clock (bus.sleep_for ns s)
  pub read_steady : (a : ℕ) (s : S) → clock s ≤ clock (bus.read_reg a s).1
  pub write_steady : (a v : ℕ) (s : S) → clock s ≤ clock (bus.write_reg a v s).1
