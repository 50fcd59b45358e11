-- ===== src/Xdma/Deadline/Kernel.antt =====
-- What the signal, timer and mask calls do to a thread, and the steps of `DriverDeadlineInterrupt` that end a timer.
use mrs_fpga_toolkit.Base.{
  ℕ, zero, suc, ◌≡◌, ◌≢◌, ◌⊎◌, inl, inr, refl, arith, ◌∙◌, Bool, false, ◌==◌, ◌∷◌, List, Option,
  none, some,
}
use mrs_fpga_toolkit.Machine.Keeps.{Keeps, keeps_rules}
use mrs_fpga_toolkit.Machine.Contract.{
  Contract, Contract-bind, Contract-pure, Contract-choose, Contract-by, Contract-no_throw,
  Contract-hang,
}
use mrs_fpga_toolkit.Xdma.{Answer, done, failed, call}
use mrs_fpga_toolkit.Xdma.Deadline.{
  Signals, sigusr2, demand, finish_drain, drain, disarm, install, recover,
}

-- What the calls do to the mask and to the timers that exist, as the manual pages say: a call that fails
-- changes nothing.
pub record IsKernel {S : Type 0} (sig : Signals S) (mask timers : S → List ℕ) : Type 0 where
  pub reports : (s : S) → (sig.block s).0.status ≡ 0 → (sig.block s).0.previous ≡ mask s
  pub blocks : (s : S) → (sig.block s).0.status ≡ 0 → mask (sig.block s).1 ≡ sigusr2 ∷ mask s
  pub block_fails : (s : S) → ((sig.block s).0.status == 0) ≡ false → mask (sig.block s).1 ≡ mask s
  pub block_timers : (s : S) → timers (sig.block s).1 ≡ timers s
  pub sets : (m : List ℕ) (s : S) → (sig.set_mask m s).0 ≡ 0 → mask (sig.set_mask m s).1 ≡ m
  pub set_fails :
      (m : List ℕ) (s : S) → (sig.set_mask m s).0 ≢ 0 → mask (sig.set_mask m s).1 ≡ mask s
  pub set_timers : (m : List ℕ) (s : S) → timers (sig.set_mask m s).1 ≡ timers s
  pub creates :
      (n : ℕ) (s : S)
      → (sig.timer_create s).0 ≡ done n
      → timers (sig.timer_create s).1 ≡ n ∷ timers s
  pub create_fails :
      (e : ℕ) (s : S) → (sig.timer_create s).0 ≡ failed e → timers (sig.timer_create s).1 ≡ timers s
  pub create_mask : (s : S) → mask (sig.timer_create s).1 ≡ mask s
  pub deletes :
      (n : ℕ) (ts : List ℕ) (s : S) → timers s ≡ n ∷ ts → timers (sig.timer_delete n s).1 ≡ ts
  pub delete_mask : (n : ℕ) (s : S) → mask (sig.timer_delete n s).1 ≡ mask s
  -- The other calls leave both alone.
  pub take_keeps :
      (m ts : List ℕ) → Keeps (λ s. (mask s ≡ m) × (timers s ≡ ts)) (call sig.take_signal)
  pub asked_keeps :
      (m ts : List ℕ) → Keeps (λ s. (mask s ≡ m) × (timers s ≡ ts)) (call sig.is_installed)
  pub noted_keeps :
      (m ts : List ℕ) → Keeps (λ s. (mask s ≡ m) × (timers s ≡ ts)) (call sig.set_installed)
  pub handler_keeps :
      (m ts : List ℕ) → Keeps (λ s. (mask s ≡ m) × (timers s ≡ ts)) (call sig.install_handler)
  pub settime_keeps :
      (m ts : List ℕ) (n a b i : ℕ)
      → Keeps (λ s. (mask s ≡ m) × (timers s ≡ ts)) (call (sig.timer_settime n a b i))
  pub clear_keeps :
      (m ts : List ℕ) → Keeps (λ s. (mask s ≡ m) × (timers s ≡ ts)) (call sig.clear_fired)

pub Contract-call :
    {S A : Type 0} {P E : S → Type 0} {Q : A → S → Type 0} (f : S → A × S)
    → ((s : S) → P s → Q (f s).0 (f s).1)
    → Contract P (call f) Q E
unfolding call
Contract-call f h = record { at = h }

module _ {S : Type 0} (sig : Signals S) (mask timers : S → List ℕ)
    (kernel : IsKernel sig mask timers) where
  abbrev pub Held : List ℕ → List ℕ → S → Type 0
  Held m ts s = (mask s ≡ m) × (timers s ≡ ts)

  -- The kernel has just refused to set the mask.
  abbrev pub Refused : List ℕ → S → Type 0
  Refused previous s =
      (t : S) × ((sig.set_mask previous t).0 ≢ 0) × (s ≡ (sig.set_mask previous t).1)

  abbrev pub Restored : List ℕ → List ℕ → S → Type 0
  Restored previous ts s = (timers s ≡ ts) × ((mask s ≡ previous) ⊎ Refused previous s)

  -- The timers of a thread to which the object may have added its own.
  abbrev pub with_timer : Option ℕ → List ℕ → List ℕ
  with_timer none ts = ts
  with_timer (some n) ts = n ∷ ts

  pub demand-Held : (m ts operation : List ℕ) (a : Answer) → Keeps (Held m ts) (demand operation a)
  demand-Held m ts operation (done n) = search keeps_rules
  demand-Held m ts operation (failed e) = search keeps_rules

  finish_drain-Held : (m ts : List ℕ) (b : Bool) (a : Answer) → Keeps (Held m ts) (finish_drain b a)
  finish_drain-Held m ts b (done n) = search keeps_rules
  finish_drain-Held m ts b (failed e) = search keeps_rules

  pub drain-Held : (m ts : List ℕ) (rounds : ℕ) (b : Bool) → Keeps (Held m ts) (drain sig rounds b)
  unfolding drain
  drain-Held m ts zero b = search keeps_rules
  drain-Held m ts (suc rounds) b =
      let rest = drain-Held m ts rounds b in
      let taken = kernel.take_keeps m ts in search (keeps_rules, finish_drain-Held) depth 9

  pub install-Held : (m ts : List ℕ) → Keeps (Held m ts) (install sig)
  unfolding install
  install-Held m ts =
      let asked = kernel.asked_keeps m ts in
      let noted = kernel.noted_keeps m ts in
      let handled = kernel.handler_keeps m ts in search (keeps_rules, demand-Held) depth 9

  -- Draining without errors does not throw.
  finish_drain-quiet :
      {E : S → Type 0} (m ts : List ℕ) (a : Answer)
      → Contract (Held m ts) (finish_drain false a) (λ _. Held m ts) E
  finish_drain-quiet m ts (done n) = Contract-no_throw _
  finish_drain-quiet m ts (failed e) =
      Contract-choose _ _ _ (λ _. Contract-pure tt (λ s h. h)) (λ _. Contract-no_throw _)

  pub drain-quiet :
      {E : S → Type 0} (m ts : List ℕ) (rounds : ℕ)
      → Contract (Held m ts) (drain sig rounds false) (λ _. Held m ts) E
  unfolding drain call
  drain-quiet m ts zero = Contract-hang
  drain-quiet {E} m ts (suc rounds) =
      let rest : Contract (Held m ts) (drain sig rounds false) (λ _. Held m ts) E =
        drain-quiet m ts rounds in
      Contract-bind {R = λ _. Held m ts} _ _
        (Contract-call sig.take_signal (λ s h. (kernel.take_keeps m ts).at s h))
        (λ a. Contract-choose _ _ _ (λ _. rest) (λ _. finish_drain-quiet m ts a))

  pub disarm-Held :
      {E : S → Type 0} (m ts : List ℕ) (t : Option ℕ)
      → Contract (Held m (with_timer t ts)) (disarm sig t) (λ _. Held m ts) E
  unfolding disarm call
  disarm-Held m ts none = Contract-pure tt (λ s h. h)
  disarm-Held m ts (some n) =
      Contract-bind {R = λ _. Held m (n ∷ ts)} _ _
        (Contract-call (sig.timer_settime n 0 0 0)
          (λ s h. (kernel.settime_keeps m (n ∷ ts) n 0 0 0).at s h))
        (λ a.
          Contract-call (sig.timer_delete n)
            (λ s h. (kernel.delete_mask n s ∙ h.0, kernel.deletes n ts s h.1)))

  -- After `set_mask`, by its status.
  abbrev Set : List ℕ → List ℕ → List ℕ → ℕ → S → Type 0
  Set m ts previous status s =
      (timers s ≡ ts)
      × (status ≡ 0 → mask s ≡ previous)
      × (status ≢ 0 → mask s ≡ m)
      × (status ≢ 0 → Refused previous s)

  pub set_mask-Set :
      {E : S → Type 0} (m ts previous : List ℕ)
      → Contract (Held m ts) (call (sig.set_mask previous)) (Set m ts previous) E
  set_mask-Set m ts previous = Contract-call (sig.set_mask previous) (λ s h. (
    kernel.set_timers previous s ∙ h.1,
    kernel.sets previous s,
    λ e. kernel.set_fails previous s e ∙ h.0,
    λ e. (s, e, refl),
  ))

  set-Restored :
      (m ts previous : List ℕ) (status : ℕ) (s : S)
      → Set m ts previous status s
      → Restored previous ts s
  set-Restored m ts previous zero s h = (h.0, inl (h.1 refl))
  set-Restored m ts previous (suc n) s h = (h.0, inr (h.3 (λ e. omega (arith, e))))

  pub set_mask-Restored :
      {E : S → Type 0} (m ts previous : List ℕ)
      → Contract (Held m ts) (call (sig.set_mask previous)) (λ _. Restored previous ts) E
  set_mask-Restored {E} m ts previous =
      Contract-by {F = E} _ (set_mask-Set m ts previous) (set-Restored m ts previous) (λ s h. h)

  pub recover-Held :
      {E : S → Type 0} (m ts previous : List ℕ) (rounds : ℕ) (t : Option ℕ)
      → Contract
          (Held m (with_timer t ts))
          (recover sig rounds t previous)
          (λ _. Restored previous ts)
          E
  unfolding recover
  recover-Held m ts previous rounds t = Contract-bind _ _ (disarm-Held m ts t) (λ a.
      Contract-bind _ _ (drain-quiet m ts rounds) (λ b.
        Contract-bind _ _ (set_mask-Restored m ts previous) (λ c. Contract-pure tt (λ s h. h))))
