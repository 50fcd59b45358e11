-- ===== src/Machine/Recorded.antt =====
-- A bus that also keeps the register accesses made through it, the newest first.
use mrs_fpga_toolkit.Base.{ℕ, List, [], ◌∷◌, ◌==◌, if◌then◌else◌, ◌≡◌}
use mrs_fpga_toolkit.Machine.Monad.{Bus, ok}

pub data Access : Type 0 where
  read : ℕ → Access
  write : ℕ → ℕ → Access

pub record Recorded (S : Type 0) : Type 0 where
  pub inner : S
  pub log : List Access

abbrev pub recorded : {S : Type 0} → Bus S → Bus (Recorded S)
recorded bus = record {
  read_reg = λ a s.
      let (r, s') = bus.read_reg a s.inner in (r, record { inner = s'; log = read a ∷ s.log });
  write_reg = λ a v s.
      let (r, s') = bus.write_reg a v s.inner in
      (r, record { inner = s'; log = write a v ∷ s.log });
  now = λ s. let (t, s') = bus.now s.inner in (t, record { inner = s'; log = s.log });
  sleep_for = λ ns s. record { inner = bus.sleep_for ns s.inner; log = s.log };
}

abbrev pub address : Access → ℕ
address (read a) = a
address (write a v) = a

-- The words written to the register at `target`, the newest first.
unfoldable pub written : ℕ → List Access → List ℕ
written target [] = []
written target (read a ∷ log) = written target log
written target (write a v ∷ log) =
    if a == target then v ∷ written target log else written target log

-- The words of a list in the order in which the log holds them, on top of what it held.
abbrev pub queued : List ℕ → List ℕ → List ℕ
queued [] before = before
queued (word ∷ rest) before = queued rest (word ∷ before)

-- A transport that never throws: `answer` is what a read returns.
pub record IsReliable {S : Type 0} (bus : Bus S) (answer : ℕ → S → ℕ) : Type 0 where
  pub reads : (a : ℕ) (s : S) → (bus.read_reg a s).0 ≡ ok (answer a s)
  pub writes : (a v : ℕ) (s : S) → (bus.write_reg a v s).0 ≡ ok tt
