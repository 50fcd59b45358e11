-- ===== src/Xdma/Deadline/Balance.antt =====
-- The signal mask and the timers of a thread around a block with a deadline.
use mrs_fpga_toolkit.Base.{
  ℕ, ◌≡◌, inl, subst, refl, arith, ap, ◌∙◌, true, false, ◌==◌, ◌∷◌, List, Option, none, some,
}
use mrs_fpga_toolkit.Base.Int.{ℤ, pos_part}
use mrs_fpga_toolkit.Machine.{M, ◌>>=◌}
use mrs_fpga_toolkit.Machine.Keeps.{Keeps, Keeps-bind}
use mrs_fpga_toolkit.Machine.Contract.{
  Contract, Contract-bind, Contract-pure, Contract-throw, Contract-choose, Contract-by,
  Contract-cases, Contract-given, Contract-throw_if, Contract-when, Meets, Contract-of_keeps,
  Contract-on_throw,
}
use mrs_fpga_toolkit.Xdma.{Answer, done, failed, call}
use mrs_fpga_toolkit.Xdma.Deadline.{
  Signals, sigusr2, created, create, arm, restore, start_timer, refuse_blocked, start_blocked,
  driver_deadline_interrupt, destroy, with_deadline,
}
use mrs_fpga_toolkit.Xdma.Deadline.Kernel.{
  IsKernel, Contract-call, Held, Restored, with_timer, demand-Held, drain-Held, install-Held,
  drain-quiet, disarm-Held, set_mask-Set, set_mask-Restored, recover-Held,
}

module _ {S : Type 0} (sig : Signals S) (mask timers : S → List ℕ)
    (kernel : IsKernel sig mask timers) where
  created-Held :
      (m ts : List ℕ)
      → Contract
          (Held sig mask timers kernel m ts)
          (call sig.timer_create >>= created sig)
          (λ n. Held sig mask timers kernel m (n ∷ ts))
          (Held sig mask timers kernel m ts)
  unfolding call ◌>>=◌
  created-Held m ts = record {
    at = λ s h.
        on (sig.timer_create s).0 (sig.timer_create s).1 (kernel.create_mask s ∙ h.0)
          (λ n e. kernel.creates n s e ∙ ap (λ x. n ∷ x) h.1)
          (λ e x. kernel.create_fails e s x ∙ h.1) refl;
  }
    where
      on :
          (a : Answer) (s' : S)
          → mask s' ≡ m
          → ((n : ℕ) → a ≡ done n → timers s' ≡ n ∷ ts)
          → ((e : ℕ) → a ≡ failed e → timers s' ≡ ts)
          → a ≡ a
          → Meets
              (λ n. Held sig mask timers kernel m (n ∷ ts))
              (Held sig mask timers kernel m ts)
              (created sig a s').0
              (created sig a s').1
      on (done n) s' hm good bad e = (hm, good n refl)
      on (failed x) s' hm good bad e = (hm, bad x refl)

  create-Held :
      (m ts : List ℕ) (rounds : ℕ)
      → Contract
          (Held sig mask timers kernel m ts)
          (create sig rounds)
          (λ n. Held sig mask timers kernel m (n ∷ ts))
          (Held sig mask timers kernel m ts)
  unfolding create
  create-Held m ts rounds =
      Contract-bind _ _ (Contract-of_keeps _ (drain-Held sig mask timers kernel m ts rounds true))
        (λ a.
          Contract-bind _ _ (Contract-of_keeps _ (install-Held sig mask timers kernel m ts))
            (λ b. created-Held m ts))

  arm-Held : (m ts : List ℕ) (n ms : ℕ) → Keeps (Held sig mask timers kernel m ts) (arm sig n ms)
  unfolding arm
  arm-Held m ts n ms =
      Keeps-bind _ _ (kernel.settime_keeps m ts n _ _ _)
        (λ a. demand-Held sig mask timers kernel m ts _ a)

  restore-Held :
      (m ts previous : List ℕ) (rounds n : ℕ)
      → Contract
          (Held sig mask timers kernel m (n ∷ ts))
          (restore sig rounds n previous)
          (λ t. Held sig mask timers kernel previous (with_timer sig mask timers kernel t ts))
          (Restored sig mask timers kernel previous ts)
  unfolding restore
  restore-Held m ts previous rounds n =
      Contract-bind _ _ (set_mask-Set sig mask timers kernel m (n ∷ ts) previous) (λ status.
        Contract-choose _ _ _
          (λ bad.
            Contract-given {P' = Held sig mask timers kernel m (n ∷ ts)} {X = Unit} _
              (λ s h. (tt, (h.2 (ground (arith, bad)), h.0)))
              (λ _.
                Contract-bind _ _
                  (recover-Held sig mask timers kernel m ts previous rounds (some n))
                  (λ _. Contract-throw _ (λ s h. h))))
          (λ good. Contract-pure (some n) (λ s h. (h.1 (ground (arith, good)), h.0))))

  start_timer-Held :
      (m ts previous : List ℕ) (rounds ms : ℕ)
      → Contract
          (Held sig mask timers kernel m ts)
          (start_timer sig rounds ms previous)
          (λ t. Held sig mask timers kernel previous (with_timer sig mask timers kernel t ts))
          (Restored sig mask timers kernel previous ts)
  unfolding start_timer
  start_timer-Held m ts previous rounds ms =
      Contract-bind _ _
        (Contract-on_throw _ _ (create-Held m ts rounds)
          (recover-Held sig mask timers kernel m ts previous rounds none))
        (λ n.
          Contract-bind {R = λ _. Held sig mask timers kernel m (n ∷ ts)} _ _
            (Contract-on_throw _ _ (Contract-of_keeps _ (arm-Held m (n ∷ ts) n ms))
              (recover-Held sig mask timers kernel m ts previous rounds (some n)))
            (λ _. restore-Held m ts previous rounds n))

  refuse_blocked-Held :
      (m ts previous : List ℕ)
      → Contract
          (Held sig mask timers kernel m ts)
          (refuse_blocked sig previous)
          (λ _. Held sig mask timers kernel m ts)
          (Restored sig mask timers kernel previous ts)
  unfolding refuse_blocked
  refuse_blocked-Held m ts previous =
      Contract-choose _ _ _
        (λ _.
          Contract-bind _ _ (set_mask-Restored sig mask timers kernel m ts previous)
            (λ _. Contract-throw _ (λ s h. h)))
        (λ _. Contract-pure tt (λ s h. h))

  -- After `block` the caller's mask is in `previous`, and the mask is the caller's where the call failed.
  abbrev Blocked : List ℕ → List ℕ → (record { status : ℕ; previous : List ℕ }) → S → Type 0
  Blocked m ts b s =
      ((b.status == 0) ≡ true → b.previous ≡ m)
      × (timers s ≡ ts)
      × ((b.status == 0) ≡ true → mask s ≡ sigusr2 ∷ m)
      × ((b.status == 0) ≡ false → mask s ≡ m)

  block-Blocked :
      {E : S → Type 0} (m ts : List ℕ)
      → Contract (Held sig mask timers kernel m ts) (call sig.block) (Blocked m ts) E
  block-Blocked m ts = Contract-call sig.block (λ s h. (
    λ e. kernel.reports s (ground (arith, e)) ∙ h.0,
    kernel.block_timers s ∙ h.1,
    λ e. kernel.blocks s (ground (arith, e)) ∙ ap (λ x. sigusr2 ∷ x) h.0,
    λ e. kernel.block_fails s e ∙ h.0,
  ))

  start_blocked-Held :
      (m ts : List ℕ) (rounds ms : ℕ)
      → Contract
          (Held sig mask timers kernel m ts)
          (start_blocked sig rounds ms)
          (λ t. Held sig mask timers kernel m (with_timer sig mask timers kernel t ts))
          (Restored sig mask timers kernel m ts)
  start_blocked-Held m ts rounds ms = Contract-bind _ _ (block-Blocked m ts) (λ b.
      Contract-bind _ _ (Contract-throw_if _ _ (λ s h e. (h.1, inl (h.3 (ground (arith, e))))))
        (λ _.
          Contract-given {P' = Held sig mask timers kernel (sigusr2 ∷ m) ts} _
            (λ s h. (h.0.0 (ground (arith, h.1)), (h.0.2 (ground (arith, h.1)), h.0.1)))
            (λ same.
              Contract-bind {R = λ _. Held sig mask timers kernel (sigusr2 ∷ m) ts} _ _
                (Contract-by _ (refuse_blocked-Held (sigusr2 ∷ m) ts b.previous) (λ _ s h. h)
                  (λ s h. subst (λ p. Restored sig mask timers kernel p ts s) same h))
                (λ _.
                  Contract-by _ (start_timer-Held (sigusr2 ∷ m) ts b.previous rounds ms)
                    (λ t s h. (h.0 ∙ same, h.1))
                    (λ s h. subst (λ p. Restored sig mask timers kernel p ts s) same h)))))

  -- The constructor that returns leaves the caller's mask as it was, and adds at most its own timer; where it throws, it adds none.
  pub driver_deadline_interrupt-Held :
      (m ts : List ℕ) (rounds : ℕ) (timeout_ms : ℤ)
      → Contract
          (Held sig mask timers kernel m ts)
          (driver_deadline_interrupt sig rounds timeout_ms)
          (λ t. Held sig mask timers kernel m (with_timer sig mask timers kernel t ts))
          (Restored sig mask timers kernel m ts)
  unfolding driver_deadline_interrupt
  driver_deadline_interrupt-Held m ts rounds timeout_ms =
      Contract-bind {R = λ _. Held sig mask timers kernel m ts} _ _
        (Contract-by _ (Contract-of_keeps _ (kernel.clear_keeps m ts)) (λ _ s h. h)
          (λ s h. (h.1, inl h.0)))
        (λ _.
          Contract-choose _ _ _ (λ _. Contract-pure none (λ s h. h))
            (λ _. start_blocked-Held m ts rounds (pos_part timeout_ms)))

  destroy-Held :
      {E : S → Type 0} (m ts : List ℕ) (rounds : ℕ) (t : Option ℕ)
      → Contract
          (Held sig mask timers kernel m (with_timer sig mask timers kernel t ts))
          (destroy sig rounds t)
          (λ _. Restored sig mask timers kernel m ts)
          E
  unfolding destroy call
  destroy-Held m ts rounds none = Contract-pure tt (λ s h. (h.1, inl h.0))
  destroy-Held m ts rounds (some n) = Contract-bind _ _ (block-Blocked m (n ∷ ts)) (λ b.
      Contract-cases (b.status == 0) _
        (λ z.
          Contract-given {P' = Held sig mask timers kernel (sigusr2 ∷ m) (n ∷ ts)} _
            (λ s h. (h.0 z, (h.2 z, h.1)))
            (λ same.
              Contract-bind _ _ (disarm-Held sig mask timers kernel (sigusr2 ∷ m) ts (some n)) (λ _.
                Contract-when _ _
                  (λ _.
                    Contract-bind _ _ (drain-quiet sig mask timers kernel (sigusr2 ∷ m) ts rounds)
                      (λ _.
                        Contract-bind {R = λ _. Held sig mask timers kernel (sigusr2 ∷ m) ts} _ _
                          (Contract-call sig.clear_fired
                            (λ s h. (kernel.clear_keeps (sigusr2 ∷ m) ts).at s h))
                          (λ _.
                            Contract-bind _ _
                              (set_mask-Restored sig mask timers kernel (sigusr2 ∷ m) ts b.previous)
                              (λ _. Contract-pure tt (λ s h.
                                subst (λ p. Restored sig mask timers kernel p ts s) same h)))))
                  (λ f. absurd (cc)))))
        (λ z.
          Contract-given {P' = Held sig mask timers kernel m (n ∷ ts)} {X = Unit} _
            (λ s h. (tt, (h.3 z, h.1)))
            (λ _.
              Contract-bind _ _ (disarm-Held sig mask timers kernel m ts (some n))
                (λ _. Contract-when _ _ (λ t. absurd (cc)) (λ _ s h. (h.1, inl h.0))))))

  -- A block with a deadline leaves the timers as they were, and the mask unless the kernel refuses to set it, if its body leaves alone those it finds.
  pub with_deadline-Restored :
      {A : Type 0} (m ts : List ℕ) (rounds : ℕ) (timeout_ms : ℤ) (body : M S A)
      → ((ts' : List ℕ) → Keeps (Held sig mask timers kernel m ts') body)
      → Contract
          (Held sig mask timers kernel m ts)
          (with_deadline sig rounds timeout_ms body)
          (λ _. Restored sig mask timers kernel m ts)
          (Restored sig mask timers kernel m ts)
  unfolding with_deadline
  with_deadline-Restored m ts rounds timeout_ms body quiet =
      Contract-bind _ _ (driver_deadline_interrupt-Held m ts rounds timeout_ms) (λ t.
        Contract-bind _ _
          (Contract-on_throw _ _
            (Contract-of_keeps _ (quiet (with_timer sig mask timers kernel t ts)))
            (destroy-Held m ts rounds t))
          (λ r. Contract-bind _ _ (destroy-Held m ts rounds t) (λ _. Contract-pure r (λ s h. h))))
