-- ===== src/Xdma/Stream/Wire.antt =====
-- The packets that `XDMAStream::writeH2C` hands to the driver, and what the two sides of a stream leave behind.
use mrs_fpga_toolkit.Base.{ℕ, ◌≡◌, ◌≢◌, ◌⊎◌, inl, inr, refl, ap, arith, List, ◌∷◌, length, some}
use mrs_fpga_toolkit.Base.Int.{ℤ}
use mrs_fpga_toolkit.Machine.{hangs}
use mrs_fpga_toolkit.Machine.Ends.{Ends, ends_rules}
use mrs_fpga_toolkit.Machine.Keeps.{keeps_rules}
use mrs_fpga_toolkit.Machine.Contract.{
  Contract, Meets, Contract-bind, Contract-pure, Contract-throw, Contract-choose, Contract-by,
  Contract-throw_if, Contract-of_keeps,
}
use mrs_fpga_toolkit.Xdma.{System, Answer, done, failed, call}
use mrs_fpga_toolkit.Xdma.Deadline.{Signals}
use mrs_fpga_toolkit.Xdma.Deadline.Silent.{IsSilent, with_deadline-Silent}
use mrs_fpga_toolkit.Xdma.Deadline.Finish.{Ends-call, IsDraining, with_deadline-Ends}
use mrs_fpga_toolkit.Xdma.Stream.{finish_write, submit, write_h2c}

-- A host that also keeps the writes made to descriptors, the newest first.
pub record Wire (S : Type 0) : Type 0 where
  pub inner : S
  pub writes : List (ℕ × List ℕ)

abbrev pub beside : {S A : Type 0} → (S → A × S) → Wire S → A × Wire S
beside f s = let (a, s') = f s.inner in (a, record { inner = s'; writes = s.writes })

abbrev pub wired : {S : Type 0} → System S → System (Wire S)
wired sys = record {
  open_file = λ path flags. beside (sys.open_file path flags);
  close_file = λ fd s. record { inner = sys.close_file fd s.inner; writes = s.writes };
  pread = λ fd at. beside (sys.pread fd at);
  pwrite = λ fd bytes at. beside (sys.pwrite fd bytes at);
  read_file = λ fd size. beside (sys.read_file fd size);
  write_file = λ fd bytes s.
      let (a, s') = sys.write_file fd bytes s.inner in
      (a, record { inner = s'; writes = (fd, bytes) ∷ s.writes });
  poll_file = λ fd ms. beside (sys.poll_file fd ms);
  now = beside sys.now;
}

abbrev pub wired_signals : {S : Type 0} → Signals S → Signals (Wire S)
wired_signals sig = record {
  block = beside sig.block;
  set_mask = λ m. beside (sig.set_mask m);
  take_signal = beside sig.take_signal;
  is_installed = beside sig.is_installed;
  set_installed = beside sig.set_installed;
  install_handler = beside sig.install_handler;
  timer_create = beside sig.timer_create;
  timer_settime = λ n a b i. beside (sig.timer_settime n a b i);
  timer_delete = λ n. beside (sig.timer_delete n);
  fired = beside sig.fired;
  clear_fired = beside sig.clear_fired;
}

module _ {S : Type 0} (sig : Signals S) where
  -- No call of the deadline is a write.
  Wire-Silent : (Q : List (ℕ × List ℕ) → Type 0) → IsSilent (wired_signals sig) (λ s. Q s.writes)
  unfolding call
  Wire-Silent Q = record {
    block = record { at = λ s h. h };
    set_mask = λ m. record { at = λ s h. h };
    take_signal = record { at = λ s h. h };
    is_installed = record { at = λ s h. h };
    set_installed = record { at = λ s h. h };
    install_handler = record { at = λ s h. h };
    timer_create = record { at = λ s h. h };
    timer_settime = λ n a b i. record { at = λ s h. h };
    timer_delete = λ n. record { at = λ s h. h };
    fired = record { at = λ s h. h };
    clear_fired = record { at = λ s h. h };
  }

  Wire-Draining :
      {pending : S → ℕ} {rounds : ℕ}
      → IsDraining sig pending rounds
      → IsDraining (wired_signals sig) (λ s. pending s.inner) rounds
  Wire-Draining d = record { bounded = λ s. d.bounded s.inner; takes = λ s. d.takes s.inner }

module _ {S : Type 0} (sys : System S) (sig : Signals S) where
  finish_write-Wire :
      (Q : List (ℕ × List ℕ) → Type 0) (size : ℕ) (a : Answer)
      → Contract
          (λ s. Q s.writes)
          (finish_write (wired sys) (wired_signals sig) size a)
          (λ n s. Q s.writes × (n ≡ size))
          (λ s. Q s.writes)
  unfolding finish_write
  finish_write-Wire Q size (failed e) =
      let fired = (Wire-Silent sig Q).fired in
      Contract-choose _ _ _
        (λ _.
          Contract-bind _ _ (Contract-of_keeps _ (search keeps_rules depth 9))
            (λ _. Contract-throw _ (λ s h. h)))
        (λ _. Contract-throw _ (λ s h. h))
  finish_write-Wire Q size (done n) =
      let fired = (Wire-Silent sig Q).fired in
      Contract-bind _ _ (Contract-of_keeps _ (search keeps_rules depth 9)) (λ _.
        Contract-bind _ _ (Contract-throw_if _ _ (λ s h _. h))
          (λ _. Contract-pure n (λ s h. (h.0, ground (arith, h.1)))))

  finish_write-Ends : (size : ℕ) (a : Answer) → Ends (finish_write sys sig size a)
  unfolding finish_write
  finish_write-Ends size (failed e) = search (ends_rules, Ends-call) depth 9
  finish_write-Ends size (done n) = search (ends_rules, Ends-call) depth 9

  -- Nothing was written yet, or the whole packet at once.
  abbrev pub AtMostOne : (ℕ × List ℕ) → List (ℕ × List ℕ) → List (ℕ × List ℕ) → Type 0
  AtMostOne packet before after = (after ≡ before) ⊎ (after ≡ packet ∷ before)

  submit-Wire :
      (before : List (ℕ × List ℕ)) (fd : ℕ) (bytes : List ℕ)
      → Contract
          (λ s. s.writes ≡ before)
          (submit (wired sys) (wired_signals sig) fd bytes)
          (λ n s. (s.writes ≡ (fd, bytes) ∷ before) × (n ≡ length bytes))
          (λ s. AtMostOne (fd, bytes) before s.writes)
  unfolding call
  submit-Wire before fd bytes =
      let fired = (Wire-Silent sig (λ w. w ≡ before)).fired in
      Contract-bind {R = λ _ s. s.writes ≡ before} _ _
        (Contract-by _ (Contract-of_keeps _ (search keeps_rules depth 9)) (λ _ s h. h)
          (λ s h. inl h))
        (λ _.
          Contract-bind {R = λ _ s. s.writes ≡ (fd, bytes) ∷ before} _ _
            (record { at = λ s h. ap (λ w. (fd, bytes) ∷ w) h })
            (λ a.
              Contract-by _ (finish_write-Wire (λ w. w ≡ (fd, bytes) ∷ before) (length bytes) a)
                (λ n s h. h) (λ s h. inr h)))

  write_h2c-Wire :
      (before : List (ℕ × List ℕ)) (rounds fd : ℕ) (bytes : List ℕ) (timeout_ms : ℤ)
      → Contract
          (λ s. s.writes ≡ before)
          (write_h2c (wired sys) (wired_signals sig) rounds (some fd) bytes timeout_ms)
          (λ n s. (s.writes ≡ (fd, bytes) ∷ before) × (n ≡ length bytes))
          (λ s. AtMostOne (fd, bytes) before s.writes)
  unfolding write_h2c
  write_h2c-Wire before rounds fd bytes timeout_ms =
      Contract-bind {R = λ _ s. s.writes ≡ before} _ _
        (Contract-by _ (Contract-throw_if _ _ (λ s h _. inl h)) (λ _ s h. h.0) (λ s h. h))
        (λ _.
          with_deadline-Silent (wired_signals sig) rounds timeout_ms _
            (Wire-Silent sig (λ w. w ≡ before)) (Wire-Silent sig (AtMostOne (fd, bytes) before))
            (λ n. Wire-Silent sig (λ w. (w ≡ (fd, bytes) ∷ before) × (n ≡ length bytes)))
            (λ s h. inl h) (λ n s h. inr h.0) (submit-Wire before fd bytes))

  submit-Ends : (fd : ℕ) (bytes : List ℕ) → Ends (submit sys sig fd bytes)
  submit-Ends fd bytes = search (ends_rules, Ends-call, finish_write-Ends) depth 9

  write_h2c-Ends :
      {pending : S → ℕ} {rounds : ℕ} (draining : IsDraining sig pending rounds) (fd : ℕ)
      (bytes : List ℕ) (timeout_ms : ℤ)
      → Ends (write_h2c sys sig rounds (some fd) bytes timeout_ms)
  unfolding write_h2c
  write_h2c-Ends draining fd bytes timeout_ms =
      let inside =
        with_deadline-Ends sig draining timeout_ms (submit sys sig fd bytes)
          (submit-Ends fd bytes) in
      search ends_rules depth 9

-- Where fewer than `rounds` answers in a row to `drain` say that a signal was taken or the wait interrupted,
-- `writeH2C` on an open stream comes to an end, and hands its packet to the driver at most once and
-- only whole: where it returns, it wrote the packet once, alone, and returns its length; where it throws, it wrote
-- nothing or the packet once, whatever the driver answered, timed out or interrupted. It never goes on or tries again.
pub write_h2c_writes_once :
    {S : Type 0} (sys : System S) (sig : Signals S) (pending : S → ℕ) (rounds : ℕ)
    (draining : IsDraining sig pending rounds) (fd : ℕ) (bytes : List ℕ) (timeout_ms : ℤ)
    (s : Wire S)
    → let (r, s') = write_h2c (wired sys) (wired_signals sig) rounds (some fd) bytes timeout_ms s in
      (r ≢ hangs)
      × Meets
          (λ n t. (t.writes ≡ (fd, bytes) ∷ s.writes) × (n ≡ length bytes))
          (λ t. (t.writes ≡ s.writes) ⊎ (t.writes ≡ (fd, bytes) ∷ s.writes))
          r
          s'
write_h2c_writes_once sys sig pending rounds draining fd bytes timeout_ms s = (
  (write_h2c-Ends (wired sys) (wired_signals sig) (Wire-Draining sig draining) fd bytes
        timeout_ms).at
      s,
  (write_h2c-Wire sys sig s.writes rounds fd bytes timeout_ms).at s refl,
)
