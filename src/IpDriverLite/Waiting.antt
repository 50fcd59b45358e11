-- ===== src/IpDriverLite/Waiting.antt =====
-- The loop of `IpDriverLite::waitMasked` and its result.
use mrs_fpga_toolkit.Base.{
  ℕ, zero, suc, ◌+◌, ◌*◌, ◌≤◌, ◌<◌, ◌≡◌, ◌≢◌, refl, ap, sym, subst, arith, bit_and, Bool, true,
  false, ◌!=◌, if◌then◌else◌,
}
use mrs_fpga_toolkit.Base.Bits.{u32}
use mrs_fpga_toolkit.Base.Int.{ℤ, pos_part}
use mrs_fpga_toolkit.Machine.{
  Outcome, ok, throws, hangs, ⊤, continue, when, lift, ◌>>=◌, clock_now, sleep,
}
use mrs_fpga_toolkit.Machine.Contract.{
  Contract, Meets, Contract-bind, Contract-pure, Contract-hang, Contract-choose, Contract-throw_if,
  Contract-by,
}
use mrs_fpga_toolkit.Machine.Steady.{IsSteady}
use mrs_fpga_toolkit.IpDriverLite.{IpDriverLite, read32, wait_loop, wait_masked, validate_offset}

Contract-raised :
    {S A : Type 0} (P : S → Type 0) (r : Outcome A) → Contract P (lift r) (λ _. P) (λ _. Unit)
unfolding ◌>>=◌
Contract-raised P (ok a) = record { at = λ s h. h }
Contract-raised P (throws x) = record { at = λ s h. tt }
Contract-raised P hangs = record { at = λ s h. tt }

pub validate_offset-ne-hangs :
    {S : Type 0} (d : IpDriverLite S) (offset width : ℕ) → validate_offset d offset width ≢ hangs
unfolding validate_offset
validate_offset-ne-hangs d offset width = ground arith

abbrev pub Wait : Type 0
Wait = record { reached : Bool; final_value : ℕ }

-- The course of a wait on one register.
module _ {S : Type 0} (d : IpDriverLite S) (offset mask expected deadline interval : ℕ) where
  abbrev read_at : S → Outcome ℕ × S
  read_at = d.registers.read_reg (u32 (d.base_address + offset))

  abbrev slept : S → S
  slept t = if interval != 0 then d.registers.sleep_for (interval * 1000) t else t

  -- The states in which a round of the loop starts: every earlier round read a value that does not agree, and then a time before
  -- the deadline.
  pub data Polled (s : S) : S → Type 0 where
    start : Polled s s
    again :
        (t : S) (v : ℕ)
        → Polled s t
        → (read_at t).0 ≡ ok v
        → bit_and v mask ≢ bit_and expected mask
        → (d.registers.now (read_at t).1).0 < deadline
        → Polled s (slept (d.registers.now (read_at t).1).1)

  -- What a result says: a round starts at `t`, its read answers with `final_value`, and nothing happens after the read, or after
  -- the reading of the clock that follows it.
  abbrev pub Reported : S → Wait → S → Type 0
  Reported s r s' =
      (t : S) × Polled s t
      × ((read_at t).0 ≡ ok r.final_value)
      × (r.reached ≡ true
          → (bit_and r.final_value mask ≡ bit_and expected mask) × (s' ≡ (read_at t).1))
      × (r.reached ≡ false
          → (bit_and r.final_value mask ≢ bit_and expected mask)
            × (deadline ≤ (d.registers.now (read_at t).1).0)
            × (s' ≡ (d.registers.now (read_at t).1).1))

  abbrev Anything : S → Type 0
  Anything s = Unit

  abbrev HasRead : S → ℕ → S → Type 0
  HasRead s v u = (t : S) × Polled s t × ((read_at t).0 ≡ ok v) × (u ≡ (read_at t).1)

  abbrev HasTime : S → ℕ → ℕ → S → Type 0
  HasTime s v time u =
      (t : S) × Polled s t
      × ((read_at t).0 ≡ ok v)
      × (time ≡ (d.registers.now (read_at t).1).0)
      × (u ≡ (d.registers.now (read_at t).1).1)

  read32-HasRead : (s : S) → Contract (Polled s) (read32 d offset) (HasRead s) Anything
  unfolding read32 ◌>>=◌
  read32-HasRead s = record { at = λ t h. checked t h (validate_offset d offset 4) }
    where
      answered :
          (t u : S) (r : Outcome ℕ)
          → Polled s t
          → (read_at t).0 ≡ r
          → u ≡ (read_at t).1
          → Meets (HasRead s) Anything r u
      answered t u (ok v) h e f = (t, h, e, f)
      answered t u (throws x) h e f = tt
      answered t u hangs h e f = tt

      checked :
          (t : S) (h : Polled s t) (c : Outcome ⊤)
          → Meets
              (HasRead s)
              Anything
              (continue c (λ _. read_at) t).0
              (continue c (λ _. read_at) t).1
      checked t h (ok c) = answered t (read_at t).1 (read_at t).0 h refl refl
      checked t h (throws x) = tt
      checked t h hangs = tt

  clock-HasTime :
      (s : S) (v : ℕ) → Contract (HasRead s v) (clock_now d.registers) (HasTime s v) Anything
  unfolding clock_now
  clock-HasTime s v = record {
    at = λ u h.
        (h.0, h.1, h.2, ap (λ w. (d.registers.now w).0) h.3, ap (λ w. (d.registers.now w).1) h.3);
  }

  sleep-Polled :
      (s : S) (v time : ℕ)
      → bit_and v mask ≢ bit_and expected mask
      → time < deadline
      → Contract
          (HasTime s v time)
          (when (interval != 0) (sleep d.registers (interval * 1000)))
          (λ _. Polled s)
          Anything
  unfolding sleep ◌>>=◌
  sleep-Polled s v time differs early = record {
    at = λ u h. turned (interval != 0) u (
        subst (λ w. Polled s (slept w)) (sym h.4)
          (again h.0 v h.1 h.2 differs (omega (arith, h.3, early))));
  }
    where
      turned :
          (b : Bool) (u : S)
          → Polled s (if b then d.registers.sleep_for (interval * 1000) u else u)
          → Meets
              (λ _. Polled s)
              Anything
              (when b (sleep d.registers (interval * 1000)) u).0
              (when b (sleep d.registers (interval * 1000)) u).1
      turned true u h = h
      turned false u h = h

  wait_loop-Reported :
      (rounds : ℕ) (s : S)
      → Contract
          (Polled s)
          (wait_loop d rounds offset mask expected deadline interval)
          (Reported s)
          Anything
  unfolding wait_loop
  wait_loop-Reported zero s = Contract-hang
  wait_loop-Reported (suc rounds) s = Contract-bind _ _ (read32-HasRead s) (λ v.
      Contract-choose _ _ _
        (λ agrees.
          Contract-pure _
            (λ u h. (h.0, h.1, h.2, λ e. (ground (arith, agrees), h.3), λ e. absurd (cc))))
        (λ differs.
          let other : bit_and v mask ≢ bit_and expected mask = ground (arith, differs) in
          Contract-bind _ _ (clock-HasTime s v) (λ time.
            Contract-choose _ _ _
              (λ late. Contract-pure _ (λ u h.
                (h.0, h.1, h.2, λ e. absurd (cc), λ e. (other, ground (arith, late, h.3), h.4))))
              (λ early.
                Contract-bind _ _ (sleep-Polled s v time other (ground (arith, early)))
                  (λ _. wait_loop-Reported rounds s)))))

wait_masked-Reported :
    {S : Type 0} (d : IpDriverLite S) (offset mask expected deadline : ℕ) (interval : ℤ) (s : S)
    → Contract
        (Polled d offset mask expected deadline (pos_part interval) s)
        (wait_masked d offset mask expected deadline interval)
        (Reported d offset mask expected deadline (pos_part interval) s)
        (λ _. Unit)
unfolding wait_masked
wait_masked-Reported d offset mask expected deadline interval s =
    Contract-bind _ _ (Contract-raised _ (validate_offset d offset 4)) (λ _.
      Contract-bind _ _
        (Contract-by _ (Contract-throw_if _ _ (λ u h e. tt)) (λ _ u h. h.0) (λ u h. h))
        (λ _.
          wait_loop-Reported d offset mask expected deadline (pos_part interval) (suc deadline) s))

wait_masked_reports :
    {S : Type 0} (d : IpDriverLite S) (offset mask expected deadline : ℕ) (interval : ℤ) (s : S)
    → let (r, s') = wait_masked d offset mask expected deadline interval s in
      (v : Wait) → r ≡ ok v → Reported d offset mask expected deadline (pos_part interval) s v s'
wait_masked_reports {S} d offset mask expected deadline interval s =
    let (r, s') = wait_masked d offset mask expected deadline interval s in
    on r s' ((wait_masked-Reported d offset mask expected deadline interval s).at s start)
  where
    on :
        (r : Outcome Wait) (s' : S)
        → Meets (Reported d offset mask expected deadline (pos_part interval) s) (λ _. Unit) r s'
        → (v : Wait) → r ≡ ok v
        → Reported d offset mask expected deadline (pos_part interval) s v s'
    on (ok w) s' h v e =
        let same : w ≡ v = ground (arith, e) in
        subst (λ x. Reported d offset mask expected deadline (pos_part interval) s x s') same h
    on (throws x) s' h v e = absurd (cc)
    on hangs s' h v e = absurd (cc)

module _ {S : Type 0} (d : IpDriverLite S) {clock : S → ℕ} (steady : IsSteady d.registers clock)
    (answers : (a : ℕ) (s : S) → (d.registers.read_reg a s).0 ≢ hangs) where
  wait_loop-ne-hangs :
      (rounds offset mask expected deadline interval : ℕ) (s : S)
      → 0 < rounds
      → deadline < clock s + rounds
      → (wait_loop d rounds offset mask expected deadline interval s).0 ≢ hangs
  unfolding wait_loop read32 ◌>>=◌ clock_now sleep
  wait_loop-ne-hangs zero offset mask expected deadline interval s p h = absurd (omega arith)
  wait_loop-ne-hangs (suc n) offset mask expected deadline interval s p h =
      let a = u32 (d.base_address + offset) in
      let s1 = (d.registers.read_reg a s).1 in
      let s2 = (d.registers.now s1).1 in
      let s3 = d.registers.sleep_for (interval * 1000) s2 in
      ground (
        arith,
        answers a s,
        steady.read_steady a s,
        steady.now_reads s1,
        steady.now_ticks s1,
        steady.sleep_steady (interval * 1000) s2,
        validate_offset-ne-hangs d offset 4,
        wait_loop-ne-hangs n offset mask expected deadline interval s2,
        wait_loop-ne-hangs n offset mask expected deadline interval s3,
      )

  pub wait_masked_ends :
      (offset mask expected deadline : ℕ) (interval : ℤ) (s : S)
      → let (r, s') = wait_masked d offset mask expected deadline interval s in
        (r ≢ hangs)
        × ((v : Wait)
            → r ≡ ok v
            → Reported d offset mask expected deadline (pos_part interval) s v s')
  unfolding wait_masked ◌>>=◌
  wait_masked_ends offset mask expected deadline interval s = (
    ground (
      arith,
      validate_offset-ne-hangs d offset 4,
      wait_loop-ne-hangs (suc deadline) offset mask expected deadline (pos_part interval) s,
    ),
    wait_masked_reports d offset mask expected deadline interval s,
  )
