-- ===== src/AxiQuadSpi/Deselects.antt =====
-- The slave select register after `AxiQuadSpi::transfer`.
use mrs_fpga_toolkit.Base.{
  ℕ, zero, suc, ◌+◌, ◌%◌, ◌≤◌, ◌≡◌, ◌≢◌, refl, arith, ltb, not, ◌&&◌, ◌||◌, true, List, [], ◌∷◌,
  ◌==◌, if◌then◌else◌, Option, none, some,
}
use mrs_fpga_toolkit.Base.Bits.{u32}
use mrs_fpga_toolkit.Machine.{Outcome, ok, throws, hangs, ◌>>=◌, Bus, M, ⊤, clock_now, sleep}
use mrs_fpga_toolkit.Machine.Keeps.{Keeps, Keeps-for_each, Keeps-bind_lift, keeps_rules}
use mrs_fpga_toolkit.Machine.Triple.{Triple, After, Triple-bind, Triple-pure, Triple-of_keeps}
use mrs_fpga_toolkit.Machine.Recorded.{Access, read, write, Recorded, recorded, IsReliable}
use mrs_fpga_toolkit.IpDriverLite.Bounds.{validate_offset_iff}
use mrs_fpga_toolkit.IpDriverLite.{read32, write32, validate_offset}
use mrs_fpga_toolkit.AxiQuadSpi.{
  AxiQuadSpi, slave_select, select_none, select_flash, spi_control, data_transmit, data_receive,
  idle, run, ip_interrupt_status, clear_interrupts, fifo_loop, reset_fifos, reset, poll_loop,
  receive, transfer, drain,
}
use mrs_fpga_toolkit.AxiQuadSpi.Payload.{on_record}

-- The newest word written to the register at `target`.
unfoldable pub last_written : ℕ → List Access → Option ℕ
last_written target [] = none
last_written target (read a ∷ log) = last_written target log
last_written target (write a v ∷ log) = if a == target then some v else last_written target log

module _ {S : Type 0} (bus : Bus S) (base timeout : ℕ) where
  abbrev pub Deselected : Recorded S → Type 0
  Deselected s = last_written (u32 (base + slave_select)) s.log ≡ some select_none

  abbrev q : AxiQuadSpi (Recorded S)
  q = on_record bus base timeout

  pub read32-Deselected : (offset : ℕ) → Keeps Deselected (read32 q.lite offset)
  unfolding read32 last_written
  read32-Deselected offset = Keeps-bind_lift _ _ (λ a _. record { at = λ s h. h })

  pub write32-Deselected :
      (offset value : ℕ)
      → (ltb offset 0x200 && (not (offset == slave_select) || value == select_none)) ≡ true
      → Keeps Deselected (write32 q.lite offset value)
  unfolding write32 last_written
  write32-Deselected offset value other =
      Keeps-bind_lift _ _ (λ a _. record { at = λ s h. ground arith })

  pub now-Deselected : Keeps Deselected (clock_now q.lite.registers)
  unfolding clock_now
  now-Deselected = record { at = λ s h. h }

  pub sleep-Deselected : (ns : ℕ) → Keeps Deselected (sleep q.lite.registers ns)
  unfolding sleep
  sleep-Deselected ns = record { at = λ s h. h }

pub ruleset deselected_rules =
    (refl, keeps_rules, read32-Deselected, write32-Deselected, now-Deselected, sleep-Deselected)

module _ {S : Type 0} (bus : Bus S) (base timeout : ℕ) where
  abbrev spi : AxiQuadSpi (Recorded S)
  spi = on_record bus base timeout

  abbrev Safe : {A : Type 0} → M (Recorded S) A → Type 0
  Safe m = Keeps (Deselected bus base timeout) m

  fifo_loop-Safe : (rounds deadline : ℕ) → Safe (fifo_loop spi rounds deadline)
  unfolding fifo_loop
  fifo_loop-Safe zero deadline = search deselected_rules
  fifo_loop-Safe (suc rounds) deadline =
      let rest = fifo_loop-Safe rounds deadline in search deselected_rules depth 9

  reset_fifos-Safe : Safe (reset_fifos spi)
  unfolding reset_fifos
  reset_fifos-Safe = search (deselected_rules, fifo_loop-Safe) depth 9

  pub clear_interrupts-Safe : Safe (clear_interrupts spi)
  unfolding clear_interrupts
  clear_interrupts-Safe = search deselected_rules depth 9

  receive-Safe : (bytes : List ℕ) → Safe (receive spi bytes)
  unfolding receive
  receive-Safe [] = search deselected_rules
  receive-Safe (b ∷ bytes) = let rest = receive-Safe bytes in search deselected_rules

  pub drain-Safe : (rounds : ℕ) → Safe (drain spi rounds)
  unfolding drain
  drain-Safe zero = search deselected_rules
  drain-Safe (suc rounds) = let rest = drain-Safe rounds in search deselected_rules depth 9

  pub reset-Safe : Safe (reset spi)
  unfolding reset
  reset-Safe = search (deselected_rules, reset_fifos-Safe, clear_interrupts-Safe) depth 9

-- Where no access throws.
module _ {S : Type 0} (bus : Bus S) (base timeout : ℕ) {answer : ℕ → S → ℕ}
    (reliable : IsReliable bus answer) (fits : base + 0x200 ≤ 0x100000000) where
  abbrev pub device : AxiQuadSpi (Recorded S)
  device = on_record bus base timeout

  abbrev IsRegister : ℕ → Type 0
  IsRegister o = (ltb o 0x200 && o % 4 == 0) ≡ true

  passes : (o : ℕ) → IsRegister o → validate_offset device.lite o 4 ≡ ok tt
  passes o h = (validate_offset_iff device.lite o (ground arith)).1 (ground arith)

  read32_runs :
      (o : ℕ) (s : Recorded S)
      → IsRegister o
      → (read32 device.lite o s).0 ≡ ok (answer (u32 (base + o)) s.inner)
  unfolding read32 ◌>>=◌
  read32_runs o s h = ground (arith, passes o h, reliable.reads (u32 (base + o)) s.inner)

  write32_runs : (o v : ℕ) (s : Recorded S) → IsRegister o → (write32 device.lite o v s).0 ≡ ok tt
  unfolding write32 ◌>>=◌
  write32_runs o v s h = ground (arith, passes o h, reliable.writes (u32 (base + o)) v s.inner)

  deselect :
      (s : Recorded S)
      → Deselected bus base timeout (write32 device.lite slave_select select_none s).1
  unfolding write32 ◌>>=◌ last_written
  deselect s = ground (arith, passes slave_select refl)

  -- A poll that ends with an exception has deselected the flash.
  poll_loop_fails :
      (rounds deadline first : ℕ) (s : Recorded S)
      → let (r, s') = poll_loop device rounds deadline first s in
        r ≢ ok tt → r ≢ hangs → Deselected bus base timeout s'
  unfolding poll_loop ◌>>=◌ clock_now
  poll_loop_fails zero deadline first s ne nh = absurd (nh refl)
  poll_loop_fails (suc n) deadline first s ne nh =
      let s1 = (read32 device.lite ip_interrupt_status s).1 in
      let pending = answer (u32 (base + ip_interrupt_status)) s.inner in
      let s2 = (write32 device.lite spi_control idle s1).1 in
      let s3 = (write32 device.lite slave_select select_none s2).1 in
      let s4 = ((recorded bus).now s1).1 in
      let s5 = (write32 device.lite spi_control idle s4).1 in
      ground (
        arith,
        read32_runs ip_interrupt_status s refl,
        write32_runs spi_control idle s1 refl,
        write32_runs slave_select select_none s2 refl,
        write32_runs ip_interrupt_status pending s3 refl,
        deselect s2,
        (write32-Deselected bus base timeout ip_interrupt_status pending refl).at s3 (deselect s2),
        write32_runs spi_control idle s4 refl,
        write32_runs slave_select select_none s5 refl,
        deselect s5,
        poll_loop_fails n deadline first s4,
      )

  abbrev pub Any : Recorded S → Type 0
  Any s = Unit

  abbrev pub Off : Recorded S → Type 0
  Off = Deselected bus base timeout

  returns :
      {A : Type 0} (m : M (Recorded S) A) {a : Recorded S → A}
      → ((s : Recorded S) → (m s).0 ≡ ok (a s))
      → Triple Any m Any Off
  returns m h = record { at = λ s p. rw (h s) tt }

  read32-Triple : (o : ℕ) → IsRegister o → Triple Any (read32 device.lite o) Any Off
  read32-Triple o h = returns (read32 device.lite o) (λ s. read32_runs o s h)

  write32-Triple : (o v : ℕ) → IsRegister o → Triple Any (write32 device.lite o v) Any Off
  write32-Triple o v h = returns (write32 device.lite o v) (λ s. write32_runs o v s h)

  select-Triple : Triple Off (write32 device.lite slave_select select_flash) Any Off
  select-Triple = record { at = λ s p. (write32-Triple slave_select select_flash refl).at s tt }

  now-Triple : Triple Any (clock_now device.lite.registers) Any Off
  unfolding clock_now
  now-Triple = record { at = λ s p. tt }

  pub deselect-Triple : Triple Any (write32 device.lite slave_select select_none) Off Off
  deselect-Triple = record {
    at = λ s p. rw (write32_runs slave_select select_none s refl) (deselect s);
  }

  poll-Triple :
      (rounds deadline first : ℕ) → Triple Any (poll_loop device rounds deadline first) Any Off
  poll-Triple rounds deadline first = record {
    at = λ s p.
        polled (poll_loop device rounds deadline first s).0
          (poll_loop device rounds deadline first s).1 (poll_loop_fails rounds deadline first s);
  }
    where
      polled :
          (r : Outcome ⊤) (s' : Recorded S) → (r ≢ ok tt → r ≢ hangs → Off s') → After Any Off r s'
      polled (ok tt) s' h = tt
      polled (throws e) s' h = h (λ x. cc) (λ x. cc)
      polled hangs s' h = tt

  receive-Triple : (bytes : List ℕ) → Triple Any (receive device bytes) Any Off
  unfolding receive
  receive-Triple [] = Triple-pure []
  receive-Triple (b ∷ bytes) =
      let rest = receive-Triple bytes in
      Triple-bind {R = Any} _ _ (read32-Triple data_receive refl)
        (λ value. Triple-bind {R = Any} _ _ rest (λ r. Triple-pure _))

  -- From a deselected flash a transfer leads back to it, whether it returns or throws.
  transfer-Triple : (bytes : List ℕ) → Triple Off (transfer device bytes) Off Off
  unfolding transfer
  transfer-Triple bytes =
      Triple-bind {R = Off} _ _ (Triple-of_keeps _ (search deselected_rules)) λ _.
        Triple-bind {R = Off} _ _ (Triple-of_keeps _ (reset_fifos-Safe bus base timeout)) λ _.
          Triple-bind {R = Off} _ _ (Triple-of_keeps _ (search deselected_rules)) λ _.
            Triple-bind {R = Off} _ _ (Triple-of_keeps _ (clear_interrupts-Safe bus base timeout))
              λ _.
                Triple-bind {R = Off} _ _
                  (Triple-of_keeps _ (
                    Keeps-for_each bytes _
                      (λ v. write32-Deselected bus base timeout data_transmit v refl)))
                  λ _. Triple-bind {R = Off} _ _ (Triple-of_keeps _ (search deselected_rules)) λ _.
                    Triple-bind {R = Any} _ _ select-Triple λ _.
                      Triple-bind {R = Any} _ _ (write32-Triple spi_control run refl) λ _.
                        Triple-bind {R = Any} _ _ now-Triple λ time.
                          Triple-bind {R = Any} _ _ (poll-Triple _ _ _) λ _.
                            Triple-bind {R = Any} _ _ (write32-Triple spi_control idle refl) λ _.
                              Triple-bind {R = Any} _ _ (receive-Triple bytes) λ result.
                                Triple-bind {R = Off} _ _ deselect-Triple λ _.
                                  Triple-bind {R = Off} _ _
                                    (Triple-of_keeps _ (clear_interrupts-Safe bus base timeout))
                                    λ _. Triple-pure result

  -- However `transfer` ends short of hanging, the last word written to the slave select register
  -- deselects the flash, if that held before; no access throws.
  pub transfer_deselects :
      (bytes : List ℕ) (s : Recorded S)
      → Off s
      → let (r, s') = transfer device bytes s in r ≢ hangs → Off s'
  transfer_deselects bytes s off nh =
      ends (transfer device bytes s).0 (transfer device bytes s).1 nh
        ((transfer-Triple bytes).at s off)
    where
      ends : (r : Outcome (List ℕ)) (s' : Recorded S) → r ≢ hangs → After Off Off r s' → Off s'
      ends (ok a) s' h p = p
      ends (throws e) s' h p = p
      ends hangs s' h p = absurd (h refl)
