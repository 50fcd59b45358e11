-- ===== src/AxiHwIcap/Atomic.antt =====
-- The order of FIFO writes and launches in `AxiHwIcap::triggerIprog` and `reset`.
use mrs_fpga_toolkit.Base.{
  ℕ, zero, suc, ◌+◌, ◌≡◌, ◌≢◌, refl, ◌⊎◌, arith, ◌==◌, ◌&&◌, if◌then◌else◌, bit_and, bit_or, List,
  [], ◌∷◌,
}
use mrs_fpga_toolkit.Base.Bits.{u32, not32, bit_and_step, bit_or_step}
use mrs_fpga_toolkit.Machine.{ok, ◌>>=◌, Bus, clock_now, sleep, for_each}
use mrs_fpga_toolkit.Machine.Keeps.{Keeps, Keeps-bind_lift, keeps_rules}
use mrs_fpga_toolkit.Machine.Recorded.{Access, read, write, Recorded, recorded, written, queued}
use mrs_fpga_toolkit.IpDriverLite.{read32, write32}
use mrs_fpga_toolkit.AxiHwIcap.{
  AxiHwIcap, write_fifo, control, control_write, control_reset, control_active, iprog_words,
  write_vacancy, require_ready, idle_loop, wait_idle, reset, trigger_iprog,
}

-- How often the register at `ctrl` has been told to start writing.
unfoldable pub launches : ℕ → List Access → ℕ
launches ctrl [] = 0
launches ctrl (read a ∷ log) = launches ctrl log
launches ctrl (write a v ∷ log) =
    if a == ctrl && v == control_write then launches ctrl log + 1 else launches ctrl log

module _ {S : Type 0} (bus : Bus S) (base timeout vacancy : ℕ) where
  abbrev device : AxiHwIcap (Recorded S)
  device = record {
    lite = record { registers = recorded bus; base_address = base; register_span = 0x200 };
    timeout = timeout;
    expected_fifo_vacancy = vacancy;
  }

  abbrev fifo : ℕ
  fifo = u32 (base + write_fifo)

  abbrev ctrl : ℕ
  ctrl = u32 (base + control)

  -- Nothing has been queued or launched since the queue was `words` and the launches `n`.
  abbrev IsQuiet : List ℕ → ℕ → Recorded S → Type 0
  IsQuiet words n s = (written fifo s.log ≡ words) × (launches ctrl s.log ≡ n)

  module _ (words : List ℕ) (n : ℕ) where
    read32-IsQuiet : (offset : ℕ) → Keeps (IsQuiet words n) (read32 device.lite offset)
    unfolding read32 written launches
    read32-IsQuiet offset = Keeps-bind_lift _ _ (λ a _. record { at = λ s h. h })

    write32-IsQuiet :
        (value : ℕ)
        → value ≢ control_write
        → Keeps (IsQuiet words n) (write32 device.lite control value)
    unfolding write32 written launches
    write32-IsQuiet value ne = Keeps-bind_lift _ _ (λ a _. record { at = λ s h. ground arith })

    now-IsQuiet : Keeps (IsQuiet words n) (clock_now device.lite.registers)
    unfolding clock_now
    now-IsQuiet = record { at = λ s h. h }

    sleep-IsQuiet : (ns : ℕ) → Keeps (IsQuiet words n) (sleep device.lite.registers ns)
    unfolding sleep
    sleep-IsQuiet ns = record { at = λ s h. h }

-- Neither value that `reset` writes to the control register starts a write.
held : (x : ℕ) → bit_or (bit_and x (not32 control_active)) control_reset ≢ control_write
held x e = omega (
  arith,
  bit_or_step (bit_and x (not32 control_active)) control_reset,
  bit_and_step x (not32 control_active),
)

freed : (x : ℕ) → bit_and (bit_and x (not32 control_active)) (not32 control_reset) ≢ control_write
freed x e = omega (
  arith,
  bit_and_step (bit_and x (not32 control_active)) (not32 control_reset),
  bit_and_step x (not32 control_active),
)

ruleset quiet_rules =
    (keeps_rules, read32-IsQuiet, write32-IsQuiet, now-IsQuiet, sleep-IsQuiet, held, freed)

module _ {S : Type 0} (bus : Bus S) (base timeout vacancy : ℕ) (words : List ℕ) (n : ℕ) where
  idle_loop-IsQuiet :
      (rounds deadline : ℕ)
      → Keeps
          (IsQuiet bus base timeout vacancy words n)
          (idle_loop (device bus base timeout vacancy) rounds deadline)
  unfolding idle_loop
  idle_loop-IsQuiet zero deadline = search quiet_rules
  idle_loop-IsQuiet (suc rounds) deadline =
      let rest = idle_loop-IsQuiet rounds deadline in search quiet_rules depth 9

  reset-IsQuiet :
      Keeps (IsQuiet bus base timeout vacancy words n) (reset (device bus base timeout vacancy))
  unfolding reset wait_idle require_ready
  reset-IsQuiet = search (quiet_rules, idle_loop-IsQuiet) depth 12

module _ {S : Type 0} (bus : Bus S) (base timeout vacancy : ℕ) where
  abbrev pub icap : AxiHwIcap (Recorded S)
  icap = device bus base timeout vacancy

  -- A loop that queues words launches nothing, and if it ends normally all of them are queued.
  send_words :
      (words : List ℕ) (s : Recorded S)
      → let (r, s') = for_each words (λ word. write32 icap.lite write_fifo word) s in
        (launches (u32 (base + control)) s'.log ≡ launches (u32 (base + control)) s.log)
        × (r ≡ ok tt
            → written (u32 (base + write_fifo)) s'.log
              ≡ queued words (written (u32 (base + write_fifo)) s.log))
  unfolding for_each write32 written launches ◌>>=◌
  send_words [] s = (refl, λ e. refl)
  send_words (word ∷ rest) s =
      let (r1, s1) = write32 icap.lite write_fifo word s in
      let ih = send_words rest s1 in ground arith

  -- What a launch leaves: one more launch, and the whole packet on top of what was queued before.
  abbrev pub Launched : ℕ → Recorded S → Recorded S → Type 0
  Launched flash_address s s' =
      (launches (u32 (base + control)) s'.log ≡ launches (u32 (base + control)) s.log + 1)
      × (written (u32 (base + write_fifo)) s'.log
          ≡ queued (iprog_words flash_address) (written (u32 (base + write_fifo)) s.log))

  -- However the hardware answers, and also if a transfer throws: either no write of the FIFO to the
  -- configuration logic has been started, or exactly one, with the eight words of the packet queued
  -- in their order before it. A normal return means the latter.
  pub trigger_iprog_atomic :
      (flash_address : ℕ) (s : Recorded S)
      → let (r, s') = trigger_iprog icap flash_address s in
        ((launches (u32 (base + control)) s'.log ≡ launches (u32 (base + control)) s.log)
          ⊎ Launched flash_address s s')
        × (r ≡ ok tt → Launched flash_address s s')
  unfolding trigger_iprog write32 read32 written launches ◌>>=◌ sleep
  trigger_iprog_atomic flash_address s =
      let queue = written (u32 (base + write_fifo)) s.log in
      let count = launches (u32 (base + control)) s.log in
      let (r1, s1) = reset icap s in
      let quiet = (reset-IsQuiet bus base timeout vacancy queue count).at s (refl, refl) in
      let (r2, s2) = read32 icap.lite write_vacancy s1 in
      ground (arith, send_words (iprog_words flash_address) s2)
