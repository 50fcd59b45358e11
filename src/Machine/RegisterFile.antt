-- ===== src/Machine/RegisterFile.antt =====
-- Hardware whose registers are plain storage: what a driver's round trips are stated for.
use mrs_fpga_toolkit.Base.{ℕ, ◌+◌, ◌≡◌, refl, ◌==◌, if◌then◌else◌}
use mrs_fpga_toolkit.Machine.Monad.{Bus, ok}

-- `cell s a` is the register at `a`. Each access succeeds; a write stores, and no more.
pub record IsRegisterFile {S : Type 0} (bus : Bus S) (cell : S → ℕ → ℕ) : Type 0 where
  pub read_ok : (a : ℕ) (s : S) → (bus.read_reg a s).0 ≡ ok (cell s a)
  pub read_keeps : (a b : ℕ) (s : S) → cell (bus.read_reg a s).1 b ≡ cell s b
  pub write_ok : (a v : ℕ) (s : S) → (bus.write_reg a v s).0 ≡ ok tt
  pub write_stores :
      (a v b : ℕ) (s : S) → cell (bus.write_reg a v s).1 b ≡ (if a == b then v else cell s b)

-- A value of it: the state is the storage, and the clock ticks at each reading.
pub record Storage : Type 0 where
  pub cells : ℕ → ℕ
  pub ticks : ℕ

abbrev pub storage_bus : Bus Storage
storage_bus = record {
  read_reg = λ a s. (ok (s.cells a), s);
  write_reg = λ a v s. (ok tt, record s { cells = λ b. if a == b then v else s.cells b });
  now = λ s. (s.ticks + 1, record s { ticks = s.ticks + 1 });
  sleep_for = λ ns s. record s { ticks = s.ticks + ns };
}

pub storage_bus-IsRegisterFile : IsRegisterFile storage_bus (λ s. s.cells)
storage_bus-IsRegisterFile = record {
  read_ok = λ a s. refl;
  read_keeps = λ a b s. refl;
  write_ok = λ a v s. refl;
  write_stores = λ a v b s. refl;
}
