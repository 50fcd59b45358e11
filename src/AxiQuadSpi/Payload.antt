-- ===== src/AxiQuadSpi/Payload.antt =====
-- What `AxiQuadSpi::transfer` queues and returns.
use mrs_fpga_toolkit.Base.{
  ℕ, zero, suc, ◌+◌, ◌*◌, ◌≤◌, ◌<◌, ◌≡◌, refl, arith, ltb, not, ◌&&◌, true, List, [], ◌∷◌, length,
  All, ◌==◌,
}
use mrs_fpga_toolkit.Base.Bits.{u32, u8}
use mrs_fpga_toolkit.Machine.{
  Outcome, ok, throws, hangs, pure, continue, ◌>>=◌, Bus, M, clock_now, for_each,
}
use mrs_fpga_toolkit.Machine.Keeps.{Keeps, Keeps-bind_lift, keeps_rules}
use mrs_fpga_toolkit.Machine.Recorded.{Recorded, recorded, written, queued}
use mrs_fpga_toolkit.IpDriverLite.{read32, write32}
use mrs_fpga_toolkit.AxiQuadSpi.{
  AxiQuadSpi, data_transmit, data_receive, slave_select, select_none, select_flash, spi_control,
  run, idle, front, clear_interrupts, fifo_loop, reset_fifos, poll_loop, receive, transfer,
}

module _ {S : Type 0} (bus : Bus S) (base timeout : ℕ) where
  -- A controller whose register accesses are recorded.
  abbrev pub on_record : AxiQuadSpi (Recorded S)
  on_record = record {
    lite = record { registers = recorded bus; base_address = base; register_span = 0x200 };
    timeout = timeout;
  }

  -- What has been queued for transmission.
  abbrev Sent : List ℕ → Recorded S → Type 0
  Sent words s = written (u32 (base + data_transmit)) s.log ≡ words

  module _ (words : List ℕ) where
    read32-Sent : (offset : ℕ) → Keeps (Sent words) (read32 on_record.lite offset)
    unfolding read32 written
    read32-Sent offset = Keeps-bind_lift _ _ (λ a _. record { at = λ s h. h })

    write32-Sent :
        (offset value : ℕ)
        → (ltb offset 0x200 && not (offset == data_transmit)) ≡ true
        → Keeps (Sent words) (write32 on_record.lite offset value)
    unfolding write32 written
    write32-Sent offset value other =
        Keeps-bind_lift _ _ (λ a _. record { at = λ s h. ground arith })

    now-Sent : Keeps (Sent words) (clock_now on_record.lite.registers)
    unfolding clock_now
    now-Sent = record { at = λ s h. h }

ruleset sent_rules = (refl, keeps_rules, read32-Sent, write32-Sent, now-Sent)

module _ {S : Type 0} (bus : Bus S) (base timeout : ℕ) (words : List ℕ) where
  abbrev Silent : {A : Type 0} → M (Recorded S) A → Type 0
  Silent m = Keeps (Sent bus base timeout words) m

  fifo_loop-Sent :
      (rounds deadline : ℕ) → Silent (fifo_loop (on_record bus base timeout) rounds deadline)
  unfolding fifo_loop
  fifo_loop-Sent zero deadline = search sent_rules
  fifo_loop-Sent (suc rounds) deadline =
      let rest = fifo_loop-Sent rounds deadline in search sent_rules depth 9

  reset_fifos-Sent : Silent (reset_fifos (on_record bus base timeout))
  unfolding reset_fifos
  reset_fifos-Sent = search (sent_rules, fifo_loop-Sent) depth 9

  clear_interrupts-Sent : Silent (clear_interrupts (on_record bus base timeout))
  unfolding clear_interrupts
  clear_interrupts-Sent = search (sent_rules) depth 9

  poll_loop-Sent :
      (rounds deadline first : ℕ)
      → Silent (poll_loop (on_record bus base timeout) rounds deadline first)
  unfolding poll_loop
  poll_loop-Sent zero deadline first = search sent_rules
  poll_loop-Sent (suc rounds) deadline first =
      let rest = poll_loop-Sent rounds deadline first in search (sent_rules) depth 12

  receive-Sent : (bytes : List ℕ) → Silent (receive (on_record bus base timeout) bytes)
  unfolding receive
  receive-Sent [] = search sent_rules
  receive-Sent (b ∷ bytes) = let rest = receive-Sent bytes in search sent_rules

abbrev IsAnswer : ℕ → List ℕ → Type 0
IsAnswer n result = (length result ≡ n) × All (λ b. b < 256) result

extended :
    {T : Type 0} (n v : ℕ) (r : Outcome (List ℕ)) (s : T) (result : List ℕ)
    → (continue r (λ rest. pure (u8 v ∷ rest)) s).0 ≡ ok result
    → ((rest : List ℕ) → r ≡ ok rest → IsAnswer n rest)
    → IsAnswer (suc n) result
unfolding ◌>>=◌
extended n v (ok rest) s result e ih = ground (arith, ih rest refl)
extended n v (throws x) s result e ih = ground arith
extended n v hangs s result e ih = ground arith

collected :
    {T : Type 0} (n : ℕ) (r : Outcome ℕ) (m : M T (List ℕ)) (s : T) (result : List ℕ)
    → (continue r (λ v. m >>= λ rest. pure (u8 v ∷ rest)) s).0 ≡ ok result
    → ((rest : List ℕ) → (m s).0 ≡ ok rest → IsAnswer n rest)
    → IsAnswer (suc n) result
unfolding ◌>>=◌
collected n (ok v) m s result e ih = extended n v (m s).0 (m s).1 result e ih
collected n (throws x) m s result e ih = ground arith
collected n hangs m s result e ih = ground arith

module _ {S : Type 0} (bus : Bus S) (base timeout : ℕ) where
  abbrev controller : AxiQuadSpi (Recorded S)
  controller = on_record bus base timeout

  abbrev pub sent : Recorded S → List ℕ
  sent s = written (u32 (base + data_transmit)) s.log

  send_bytes :
      (bytes : List ℕ) (s : Recorded S)
      → let (r, s') = for_each bytes (λ value. write32 controller.lite data_transmit value) s in
        r ≡ ok tt → sent s' ≡ queued bytes (sent s)
  unfolding for_each write32 written ◌>>=◌
  send_bytes [] s e = refl
  send_bytes (b ∷ bytes) s e =
      let (r1, s1) = write32 controller.lite data_transmit b s in
      let ih = send_bytes bytes s1 in ground arith

  -- As many bytes come back as are asked for.
  receive_bytes :
      (bytes : List ℕ) (s : Recorded S) (result : List ℕ)
      → (receive controller bytes s).0 ≡ ok result
      → IsAnswer (length bytes) result
  unfolding receive ◌>>=◌
  receive_bytes [] s result e = ground arith
  receive_bytes (b ∷ bytes) s result e =
      let (r1, s1) = read32 controller.lite data_receive s in
      collected (length bytes) r1 (receive controller bytes) s1 result e (receive_bytes bytes s1)

  -- A transfer that returns has queued exactly its bytes, in their order and each once, and returns
  -- one byte for each of them. It has between 1 and 256 bytes.
  pub transfer_sends :
      (bytes result : List ℕ) (s : Recorded S)
      → let (r, s') = transfer controller bytes s in
        r ≡ ok result
        → (sent s' ≡ queued bytes (sent s))
          × (length result ≡ length bytes)
          × All (λ b. b < 256) result
          × (1 ≤ length bytes)
          × (length bytes ≤ 256)
  unfolding transfer ◌>>=◌ clock_now
  transfer_sends bytes result s e =
      let (r1, s1) = reset_fifos controller s in
      let (r2, s2) = write32 controller.lite slave_select select_none s1 in
      let (r3, s3) = clear_interrupts controller s2 in
      let (r4, s4) = for_each bytes (λ value. write32 controller.lite data_transmit value) s3 in
      let (r5, s5) = read32 controller.lite spi_control s4 in
      let (r6, s6) = write32 controller.lite slave_select select_flash s5 in
      let (r7, s7) = write32 controller.lite spi_control run s6 in
      let (start, s8) = (recorded bus).now s7 in
      let (r9, s9) =
        poll_loop controller (suc (timeout * 1000000)) (start + timeout * 1000000) (front bytes)
          s8 in
      let (r10, s10) = write32 controller.lite spi_control idle s9 in
      let (r11, s11) = receive controller bytes s10 in
      let (r12, s12) = write32 controller.lite slave_select select_none s11 in
      let (r13, s13) = clear_interrupts controller s12 in
      let same = sent s in
      let next = sent s4 in
      ground (
        arith,
        (reset_fifos-Sent bus base timeout same).at s,
        (write32-Sent bus base timeout same slave_select select_none refl).at s1,
        (clear_interrupts-Sent bus base timeout same).at s2,
        send_bytes bytes s3,
        (read32-Sent bus base timeout next spi_control).at s4,
        (write32-Sent bus base timeout next slave_select select_flash refl).at s5,
        (write32-Sent bus base timeout next spi_control run refl).at s6,
        (poll_loop-Sent bus base timeout next (suc (timeout * 1000000)) (start + timeout * 1000000)
              (front bytes)).at
            s8,
        (write32-Sent bus base timeout next spi_control idle refl).at s9,
        (receive-Sent bus base timeout next bytes).at s10,
        receive_bytes bytes s10 result,
        (write32-Sent bus base timeout next slave_select select_none refl).at s11,
        (clear_interrupts-Sent bus base timeout next).at s12,
      )
