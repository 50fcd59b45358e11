-- ===== src/Xdma/Deadline/Silent.antt =====
-- What `DriverDeadlineInterrupt` leaves alone: anything that no signal or timer call changes.
use mrs_fpga_toolkit.Base.{ℕ, zero, suc, List, Option, none, some, Bool}
use mrs_fpga_toolkit.Base.Int.{ℤ}
use mrs_fpga_toolkit.Machine.{M}
use mrs_fpga_toolkit.Machine.Keeps.{Keeps, keeps_rules}
use mrs_fpga_toolkit.Machine.Contract.{
  Contract, Contract-bind, Contract-pure, Contract-of_keeps, Contract-on_throw, Contract-by,
}
use mrs_fpga_toolkit.Xdma.{Answer, done, failed, call}
use mrs_fpga_toolkit.Xdma.Deadline.{
  Signals, demand, finish_drain, drain, disarm, install, created, create, arm, recover, restore,
  start_timer, refuse_blocked, driver_deadline_interrupt, destroy, with_deadline,
}

pub record IsSilent {S : Type 0} (sig : Signals S) (P : S → Type 0) : Type 0 where
  pub block : Keeps P (call sig.block)
  pub set_mask : (m : List ℕ) → Keeps P (call (sig.set_mask m))
  pub take_signal : Keeps P (call sig.take_signal)
  pub is_installed : Keeps P (call sig.is_installed)
  pub set_installed : Keeps P (call sig.set_installed)
  pub install_handler : Keeps P (call sig.install_handler)
  pub timer_create : Keeps P (call sig.timer_create)
  pub timer_settime : (n a b i : ℕ) → Keeps P (call (sig.timer_settime n a b i))
  pub timer_delete : (n : ℕ) → Keeps P (call (sig.timer_delete n))
  pub fired : Keeps P (call sig.fired)
  pub clear_fired : Keeps P (call sig.clear_fired)

module _ {S : Type 0} (sig : Signals S) {P : S → Type 0} (silent : IsSilent sig P) where
  demand-Silent : (operation : List ℕ) (a : Answer) → Keeps P (demand operation a)
  demand-Silent operation (done n) = search keeps_rules
  demand-Silent operation (failed e) = search keeps_rules

  finish_drain-Silent : (b : Bool) (a : Answer) → Keeps P (finish_drain b a)
  finish_drain-Silent b (done n) = search keeps_rules
  finish_drain-Silent b (failed e) = search keeps_rules

  drain-Silent : (rounds : ℕ) (b : Bool) → Keeps P (drain sig rounds b)
  unfolding drain
  drain-Silent zero b = search keeps_rules
  drain-Silent (suc rounds) b =
      let rest = drain-Silent rounds b in
      let taken = silent.take_signal in search (keeps_rules, finish_drain-Silent) depth 9

  disarm-Silent : (t : Option ℕ) → Keeps P (disarm sig t)
  unfolding disarm
  disarm-Silent none = search keeps_rules
  disarm-Silent (some n) = search (keeps_rules, silent.timer_settime, silent.timer_delete) depth 9

  install-Silent : Keeps P (install sig)
  unfolding install
  install-Silent =
      let asked = silent.is_installed in
      let noted = silent.set_installed in
      let handled = silent.install_handler in search (keeps_rules, demand-Silent) depth 9

  created-Silent : (a : Answer) → Keeps P (created sig a)
  created-Silent (done n) = search keeps_rules
  created-Silent (failed e) = search keeps_rules

  create-Silent : (rounds : ℕ) → Keeps P (create sig rounds)
  unfolding create
  create-Silent rounds =
      let installed = install-Silent in
      let made = silent.timer_create in search (keeps_rules, drain-Silent, created-Silent) depth 9

  arm-Silent : (n ms : ℕ) → Keeps P (arm sig n ms)
  unfolding arm
  arm-Silent n ms = search (keeps_rules, demand-Silent, silent.timer_settime) depth 9

  recover-Silent : (rounds : ℕ) (t : Option ℕ) (m : List ℕ) → Keeps P (recover sig rounds t m)
  unfolding recover
  recover-Silent rounds t m =
      search (keeps_rules, disarm-Silent, drain-Silent, silent.set_mask) depth 9

  restore-Silent : (rounds n : ℕ) (m : List ℕ) → Keeps P (restore sig rounds n m)
  unfolding restore
  restore-Silent rounds n m = search (keeps_rules, recover-Silent, silent.set_mask) depth 9

  start_timer-Silent : (rounds ms : ℕ) (m : List ℕ) → Keeps P (start_timer sig rounds ms m)
  unfolding start_timer
  start_timer-Silent rounds ms m =
      search (keeps_rules, create-Silent, arm-Silent, recover-Silent, restore-Silent) depth 9

  refuse_blocked-Silent : (m : List ℕ) → Keeps P (refuse_blocked sig m)
  unfolding refuse_blocked
  refuse_blocked-Silent m = search (keeps_rules, silent.set_mask) depth 9

  pub driver_deadline_interrupt-Silent :
      (rounds : ℕ) (timeout_ms : ℤ) → Keeps P (driver_deadline_interrupt sig rounds timeout_ms)
  unfolding driver_deadline_interrupt
  driver_deadline_interrupt-Silent rounds timeout_ms =
      let cleared = silent.clear_fired in
      let blocked = silent.block in
      search (keeps_rules, refuse_blocked-Silent, start_timer-Silent) depth 12

  pub destroy-Silent : (rounds : ℕ) (t : Option ℕ) → Keeps P (destroy sig rounds t)
  unfolding destroy
  destroy-Silent rounds none = search keeps_rules
  destroy-Silent rounds (some n) =
      let cleared = silent.clear_fired in
      let blocked = silent.block in
      search (keeps_rules, disarm-Silent, drain-Silent, silent.set_mask) depth 12

-- The contract of a body is that of the block with a deadline, where the calls of the deadline change nothing of it.
module _ {S A : Type 0} (sig : Signals S) {P E : S → Type 0} {Q : A → S → Type 0} where
  pub with_deadline-Silent :
      (rounds : ℕ) (timeout_ms : ℤ) (body : M S A)
      → IsSilent sig P
      → IsSilent sig E
      → ((a : A) → IsSilent sig (Q a))
      → ((s : S) → P s → E s)
      → ((a : A) (s : S) → Q a s → E s)
      → Contract P body Q E
      → Contract P (with_deadline sig rounds timeout_ms body) Q E
  unfolding with_deadline
  with_deadline-Silent rounds timeout_ms body before raised after early late k =
      Contract-bind _ _
        (Contract-by _
          (Contract-of_keeps _ (driver_deadline_interrupt-Silent sig before rounds timeout_ms))
          (λ _ s h. h) early)
        (λ t.
          Contract-bind _ _
            (Contract-on_throw _ _ k (Contract-of_keeps _ (destroy-Silent sig raised rounds t)))
            (λ r.
              Contract-bind _ _
                (Contract-by _ (Contract-of_keeps _ (destroy-Silent sig (after r) rounds t))
                  (λ _ s h. h) (late r))
                (λ _. Contract-pure r (λ s h. h))))
