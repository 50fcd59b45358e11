-- ===== src/Xdma/Deadline.antt =====
-- `DriverDeadlineInterrupt` of dev/src/xdma.cpp: a timer whose signal makes a blocked system call return.
-- The signal, timer and mask calls belong to the operating system and are a parameter. A mask is the list of
-- the blocked signals. Draining has no bound in the source: the model gives it `rounds`.
pub mod Kernel
pub mod Balance
pub mod Silent
mod Tests
pub mod Finish
use mrs_fpga_toolkit.Base.{
  ℕ, zero, suc, ◌*◌, ◌/◌, ◌%◌, max, Bool, true, false, ◌==◌, ◌!=◌, ◌||◌, List, [], ◌∷◌, codes,
  Option, none, some,
}
use mrs_fpga_toolkit.Base.Int.{ℤ, pos_part, is_negative}
use mrs_fpga_toolkit.Machine.{
  M, ⊤, ok, runtime_error, system_error, pure, throw, throw_if, choose, when, hang, on_throw,
  settle, ◌>>=◌, ◌>>◌,
}
use mrs_fpga_toolkit.Xdma.{Answer, done, failed, call, eintr, eagain}

abbrev pub sigusr2 : ℕ
sigusr2 = 12

pub record Signals (S : Type 0) : Type 0 where
  -- `pthread_sigmask(SIG_BLOCK, {SIGUSR2}, &previous)`: the error number and the previous mask
  pub block : S → (record { status : ℕ; previous : List ℕ }) × S
  -- `pthread_sigmask(SIG_SETMASK, &mask, nullptr)`
  pub set_mask : List ℕ → S → ℕ × S
  -- `sigtimedwait` on SIGUSR2 with no wait
  pub take_signal : S → Answer × S
  -- whether `install_once` has run to its end, and the note that it has
  pub is_installed : S → Bool × S
  pub set_installed : S → ⊤ × S
  -- `sigaction(SIGUSR2, handleSignal)`
  pub install_handler : S → Answer × S
  -- `timer_create` with SIGUSR2 to the calling thread
  pub timer_create : S → Answer × S
  -- `timer_settime`: the first expiry as seconds and nanoseconds, and the interval in nanoseconds
  pub timer_settime : ℕ → ℕ → ℕ → ℕ → S → Answer × S
  pub timer_delete : ℕ → S → ⊤ × S
  -- the thread's flag `fired_`
  pub fired : S → Bool × S
  pub clear_fired : S → ⊤ × S

-- Whether SIGUSR2 is a member of a mask.
unfoldable pub has_sigusr2 : List ℕ → Bool
has_sigusr2 [] = false
has_sigusr2 (n ∷ mask) = n == sigusr2 || has_sigusr2 mask

-- Whether `drain` goes around again after this answer.
abbrev pub drains_on : Answer → Bool
drains_on (done signal) = signal == sigusr2
drains_on (failed e) = e == eintr

-- `if (call fails) throw systemError(operation)`
abbrev pub demand : {S : Type 0} → List ℕ → Answer → M S ⊤
demand operation (done n) = pure tt
demand operation (failed e) = throw (system_error operation e)

-- How `drain` ends once it does not go around. Another signal leaves `errno` as it was, given here as 0.
abbrev pub finish_drain : {S : Type 0} → Bool → Answer → M S ⊤
finish_drain throw_on_error (done n) =
    throw_if throw_on_error (system_error (codes "failed to drain an XDMA deadline notification") 0)
finish_drain throw_on_error (failed e) = choose (e == eagain) (pure tt) (
    throw_if throw_on_error
      (system_error (codes "failed to drain an XDMA deadline notification") e))

module _ {S : Type 0} (sig : Signals S) where
  unfoldable pub drain : ℕ → Bool → M S ⊤
  drain zero throw_on_error = hang
  drain (suc rounds) throw_on_error = do
    answer ← call sig.take_signal
    choose (drains_on answer) (drain rounds throw_on_error) (finish_drain throw_on_error answer)

  unfoldable pub disarm : Option ℕ → M S ⊤
  disarm none = pure tt
  disarm (some timer) = do
    ignored ← call (sig.timer_settime timer 0 0 0)
    call (sig.timer_delete timer)

  -- The body of `call_once`.
  unfoldable pub install : M S ⊤
  install = do
    before ← call sig.is_installed
    choose before (pure tt) (do
      answer ← call sig.install_handler
      demand (codes "failed to install the XDMA deadline handler") answer
      call sig.set_installed)

  abbrev created : Answer → M S ℕ
  created (done timer) = pure timer
  created (failed e) = throw (system_error (codes "failed to create an XDMA deadline timer") e)

  unfoldable pub create : ℕ → M S ℕ
  create rounds = do drain rounds true; install; answer ← call sig.timer_create; created answer

  abbrev pub timeout_ns : ℕ → ℕ
  timeout_ns ms = max 1 (ms * 1000000)

  unfoldable pub arm : ℕ → ℕ → M S ⊤
  arm timer ms = do
    answer ←
        call (
          sig.timer_settime timer (timeout_ns ms / 1000000000) (timeout_ns ms % 1000000000) 1000000)
    demand (codes "failed to arm an XDMA deadline timer") answer

  -- `disarm`, `drain` and the caller's mask: the `catch` block, and the path of a failed restore.
  unfoldable pub recover : ℕ → Option ℕ → List ℕ → M S ⊤
  recover rounds timer previous = do
    disarm timer
    drain rounds false
    ignored ← call (sig.set_mask previous)
    pure tt

  -- The end of the constructor.
  unfoldable pub restore : ℕ → ℕ → List ℕ → M S (Option ℕ)
  restore rounds timer previous = do
    status ← call (sig.set_mask previous)
    choose (status != 0)
        (do
          recover rounds (some timer) previous
          throw (system_error (codes "failed to restore the XDMA caller signal mask") status))
        (pure (some timer))

  -- The constructor after the caller's mask is known. The `try` block is cut where it sets `timer_created_`,
  -- since the handler disarms the timer that exists.
  unfoldable pub start_timer : ℕ → ℕ → List ℕ → M S (Option ℕ)
  start_timer rounds ms previous = do
    timer ← on_throw (create rounds) (recover rounds none previous)
    on_throw (arm timer ms) (recover rounds (some timer) previous)
    restore rounds timer previous

  unfoldable pub refuse_blocked : List ℕ → M S ⊤
  refuse_blocked previous =
      choose (has_sigusr2 previous)
        (do
          ignored ← call (sig.set_mask previous)
          throw (
              runtime_error
                "SIGUSR2 is blocked on the caller thread; an XDMA syscall deadline cannot interrupt the driver"))
        (pure tt)

  abbrev start_blocked : ℕ → ℕ → M S (Option ℕ)
  start_blocked rounds ms = do
    blocked ← call sig.block
    throw_if (blocked.status != 0)
        (system_error (codes "failed to block the XDMA deadline signal") blocked.status)
    refuse_blocked blocked.previous
    start_timer rounds ms blocked.previous

  -- The constructor: the object is its timer, if it has one.
  unfoldable pub driver_deadline_interrupt : ℕ → ℤ → M S (Option ℕ)
  driver_deadline_interrupt rounds timeout_ms = do
    call sig.clear_fired
    choose (is_negative timeout_ms) (pure none) (start_blocked rounds (pos_part timeout_ms))

  -- The destructor.
  unfoldable pub destroy : ℕ → Option ℕ → M S ⊤
  destroy rounds none = pure tt
  destroy rounds (some timer) = do
    blocked ← call sig.block
    disarm (some timer)
    when (blocked.status == 0) (do
      drain rounds false
      call sig.clear_fired
      ignored ← call (sig.set_mask blocked.previous)
      pure tt)

  -- A block with a deadline: the object is destroyed on the way out, also when the block throws.
  unfoldable pub with_deadline : {A : Type 0} → ℕ → ℤ → M S A → M S A
  with_deadline rounds timeout_ms body = do
    timer ← driver_deadline_interrupt rounds timeout_ms
    result ← on_throw body (destroy rounds timer)
    destroy rounds timer
    pure result
