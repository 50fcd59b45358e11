-- ===== src/Xdma/Deadline/Finish.antt =====
-- The loop of `DriverDeadlineInterrupt::drain`, and with it every block with a deadline, comes to an end.
use mrs_fpga_toolkit.Base.{
  ℕ, zero, suc, ◌<◌, ◌≡◌, ◌≢◌, ◌⊎◌, refl, arith, List, Option, none, some, Bool, true, false,
}
use mrs_fpga_toolkit.Base.Int.{ℤ}
use mrs_fpga_toolkit.Machine.{M, Outcome, ok, throws, hangs, choose, ◌>>=◌}
use mrs_fpga_toolkit.Machine.Ends.{Ends, ends_rules}
use mrs_fpga_toolkit.Machine.Keeps.{Keeps}
use mrs_fpga_toolkit.Xdma.{Answer, done, failed, call}
use mrs_fpga_toolkit.Xdma.Deadline.{
  Signals, drains_on, demand, finish_drain, drain, disarm, install, created, create, arm, recover,
  restore, start_timer, refuse_blocked, driver_deadline_interrupt, destroy, with_deadline,
}
use mrs_fpga_toolkit.Xdma.Deadline.Kernel.{IsKernel, Restored}
use mrs_fpga_toolkit.Xdma.Deadline.Balance.{with_deadline-Restored}
use mrs_fpga_toolkit.Machine.Contract.{Meets}

pub Ends-call : {S A : Type 0} (f : S → A × S) → Ends (call f)
unfolding call
Ends-call f = record { at = λ s e. cc }

choose-Ends :
    {S A : Type 0} (z : Bool) (m n : M S A) (s : S)
    → (z ≡ true → (m s).0 ≢ hangs)
    → (n s).0 ≢ hangs
    → (choose z m n s).0 ≢ hangs
unfolding ◌>>=◌
choose-Ends true m n s km kn = km refl
choose-Ends false m n s km kn = kn

-- Fewer than `rounds` answers in a row say that a signal was taken or the call interrupted.
pub record IsDraining {S : Type 0} (sig : Signals S) (pending : S → ℕ) (rounds : ℕ) : Type 0 where
  pub bounded : (s : S) → pending s < rounds
  pub takes :
      (s : S) → drains_on (sig.take_signal s).0 ≡ true → pending (sig.take_signal s).1 < pending s

module _ {S : Type 0} (sig : Signals S) {pending : S → ℕ} {rounds : ℕ}
    (draining : IsDraining sig pending rounds) where
  demand-Ends : (operation : List ℕ) (a : Answer) → Ends (demand {S = S} operation a)
  demand-Ends operation (done n) = search ends_rules
  demand-Ends operation (failed e) = search ends_rules

  finish_drain-Ends : (b : Bool) (a : Answer) → Ends (finish_drain {S = S} b a)
  finish_drain-Ends b (done n) = search ends_rules
  finish_drain-Ends b (failed e) = search ends_rules

  drain_from : (left : ℕ) (b : Bool) (s : S) → pending s < left → (drain sig left b s).0 ≢ hangs
  unfolding drain call ◌>>=◌
  drain_from zero b s h = absurd (omega arith)
  drain_from (suc left) b s h =
      let (a, s') = sig.take_signal s in
      let rest : pending s' < left → (drain sig left b s').0 ≢ hangs = drain_from left b s' in
      choose-Ends (drains_on a) (drain sig left b) (finish_drain b a) s'
        (λ z. let fewer = draining.takes s z in rest (omega arith)) ((finish_drain-Ends b a).at s')

  drain-Ends : (b : Bool) → Ends (drain sig rounds b)
  drain-Ends b = record { at = λ s. drain_from rounds b s (draining.bounded s) }

  disarm-Ends : (t : Option ℕ) → Ends (disarm sig t)
  unfolding disarm
  disarm-Ends none = search ends_rules
  disarm-Ends (some n) = search (ends_rules, Ends-call) depth 9

  install-Ends : Ends (install sig)
  unfolding install
  install-Ends = search (ends_rules, demand-Ends, Ends-call) depth 9

  created-Ends : (a : Answer) → Ends (created sig a)
  created-Ends (done n) = search ends_rules
  created-Ends (failed e) = search ends_rules

  create-Ends : Ends (create sig rounds)
  unfolding create
  create-Ends =
      let installed = install-Ends in
      search (ends_rules, drain-Ends, created-Ends, Ends-call) depth 9

  arm-Ends : (n ms : ℕ) → Ends (arm sig n ms)
  unfolding arm
  arm-Ends n ms = search (ends_rules, demand-Ends, Ends-call) depth 9

  recover-Ends : (t : Option ℕ) (m : List ℕ) → Ends (recover sig rounds t m)
  unfolding recover
  recover-Ends t m = search (ends_rules, disarm-Ends, drain-Ends, Ends-call) depth 9

  restore-Ends : (n : ℕ) (m : List ℕ) → Ends (restore sig rounds n m)
  unfolding restore
  restore-Ends n m = search (ends_rules, recover-Ends, Ends-call) depth 9

  start_timer-Ends : (ms : ℕ) (m : List ℕ) → Ends (start_timer sig rounds ms m)
  unfolding start_timer
  start_timer-Ends ms m =
      let created = create-Ends in search (ends_rules, arm-Ends, recover-Ends, restore-Ends) depth 9

  refuse_blocked-Ends : (m : List ℕ) → Ends (refuse_blocked sig m)
  unfolding refuse_blocked
  refuse_blocked-Ends m = search (ends_rules, Ends-call) depth 9

  driver_deadline_interrupt-Ends :
      (timeout_ms : ℤ) → Ends (driver_deadline_interrupt sig rounds timeout_ms)
  unfolding driver_deadline_interrupt
  driver_deadline_interrupt-Ends timeout_ms =
      search (ends_rules, Ends-call, refuse_blocked-Ends, start_timer-Ends) depth 12

  destroy-Ends : (t : Option ℕ) → Ends (destroy sig rounds t)
  unfolding destroy
  destroy-Ends none = search ends_rules
  destroy-Ends (some n) = search (ends_rules, disarm-Ends, drain-Ends, Ends-call) depth 12

  pub with_deadline-Ends :
      {A : Type 0} (timeout_ms : ℤ) (body : M S A)
      → Ends body
      → Ends (with_deadline sig rounds timeout_ms body)
  unfolding with_deadline
  with_deadline-Ends timeout_ms body k =
      search (ends_rules, driver_deadline_interrupt-Ends, destroy-Ends) depth 12

-- A block with a deadline leaves no trace in its thread that it can remove: if the kernel keeps to the manual pages, where a call
-- that fails changes nothing, `drain` gets fewer than `rounds` answers in a row that send it around, and the body comes to an
-- end and leaves the mask and the timers it finds alone, then the block comes to an end; on every way out, by a value or by an
-- exception from the constructor, the body or the restoring of the mask, the timers are those from before, so none leaks, and
-- the signal mask is the one from before unless the last thing that happened is that the kernel refused to set it.
pub with_deadline_restores :
    {S A : Type 0} (sig : Signals S) (mask timers : S → List ℕ) (pending : S → ℕ) (rounds : ℕ)
    (kernel : IsKernel sig mask timers) (draining : IsDraining sig pending rounds) (timeout_ms : ℤ)
    (body : M S A) (s : S)
    → Ends body
    → ((ts : List ℕ) → Keeps (λ t. (mask t ≡ mask s) × (timers t ≡ ts)) body)
    → let (r, s') = with_deadline sig rounds timeout_ms body s in
      (r ≢ hangs)
      × (timers s' ≡ timers s)
      × ((mask s' ≡ mask s)
          ⊎ ((t : S) × ((sig.set_mask (mask s) t).0 ≢ 0) × (s' ≡ (sig.set_mask (mask s) t).1)))
with_deadline_restores {S} {A} sig mask timers pending rounds kernel draining timeout_ms body s ends
      quiet =
    let (r, s') = with_deadline sig rounds timeout_ms body s in
    let stops = (with_deadline-Ends sig draining timeout_ms body ends).at s in
    let restored = on r s' stops (
      (with_deadline-Restored sig mask timers kernel (mask s) (timers s) rounds timeout_ms body
          quiet).at
        s (refl, refl)) in
    (stops, restored.0, restored.1)
  where
    on :
        (r : Outcome A) (s' : S)
        → r ≢ hangs
        → Meets
            (λ _. Restored sig mask timers kernel (mask s) (timers s))
            (Restored sig mask timers kernel (mask s) (timers s))
            r
            s'
        → Restored sig mask timers kernel (mask s) (timers s) s'
    on (ok a) s' stops h = h
    on (throws e) s' stops h = h
    on hangs s' stops h = absurd (stops refl)
