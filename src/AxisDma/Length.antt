-- ===== src/AxisDma/Length.antt =====
-- The loop of `AxiMm2s::read`, and the length of its result.
use mrs_fpga_toolkit.Base.{
  ℕ, zero, suc, ◌+◌, ◌-◌, ◌*◌, ◌≤◌, ◌<◌, ◌≡◌, ◌≢◌, refl, ◌∙◌, arith, min, List, [], ◌++◌, length,
  take, length-append, length-take,
}
use native.Mathlib.Nat.{div-add-mod', mod-lt}
use mrs_fpga_toolkit.Base.Bits.{u32}
use mrs_fpga_toolkit.Base.Int.{ℤ, pos, pos_part}
use mrs_fpga_toolkit.Machine.{M, Outcome, ok, throws, hangs, lift, clock_now, ◌>>=◌}
use mrs_fpga_toolkit.Machine.Steady.{IsSteady}
use mrs_fpga_toolkit.Machine.Returns.{
  Returns, Then, Returns-bind, Returns-pure, Returns-hang, Returns-choose, Returns-throw_if,
  Returns-given,
}
use mrs_fpga_toolkit.IpDriverLite.{
  validate_offset, read32, write32, write64_at, write64, wait_masked,
}
use mrs_fpga_toolkit.IpDriverLite.Waiting.{validate_offset-ne-hangs, wait_masked_ends}
use mrs_fpga_toolkit.AxisDma.{Fragment, control, busy_bit}
use mrs_fpga_toolkit.AxisDma.Memory.{
  AxiMm2s, AxiMm2sStatistics, round_up, status, collect, run_read, read,
}

-- What is relied on: register accesses and stream reads return or throw, time passes, and the buffer that
-- a stream read leaves has the size that it was given.
pub record IsPrompt {S : Type 0} (d : AxiMm2s S) (clock : S → ℕ) : Type 0 where
  pub steady : IsSteady d.lite.registers clock
  pub read_ends : (a : ℕ) (s : S) → (d.lite.registers.read_reg a s).0 ≢ hangs
  pub write_ends : (a v : ℕ) (s : S) → (d.lite.registers.write_reg a v s).0 ≢ hangs
  pub stream_ends : (n t : ℕ) (s : S) → (d.stream.read_c2h n t s).0 ≢ hangs
  pub stream_steady : (n t : ℕ) (s : S) → clock s ≤ clock (d.stream.read_c2h n t s).1
  pub stream_fills :
      (n t : ℕ) (s : S) (f : Fragment) → (d.stream.read_c2h n t s).0 ≡ ok f → length f.bytes ≡ n

round_up_lem : (beat n : ℕ) → 0 < beat → n ≤ round_up beat n
unfolding round_up
round_up_lem beat n positive =
    omega (arith, div-add-mod' (n + beat - 1) beat, mod-lt (n + beat - 1) positive)

settled :
    {S A : Type 0} (Q : A → S → Type 0) (r : Outcome A) (s : S)
    → r ≢ hangs
    → ((a : A) → r ≡ ok a → Q a s)
    → Then Q r s
settled Q (ok a) s w k = k a refl
settled Q (throws e) s w k = tt
settled Q hangs s w k = w refl

module _ {S : Type 0} (d : AxiMm2s S) (clock : S → ℕ) (prompt : IsPrompt d clock) where
  abbrev Enough : ℕ → ℕ → S → Type 0
  Enough rounds deadline s = (0 < rounds) × (deadline < clock s + rounds)

  -- A method during which time passes keeps the rounds sufficient.
  passing :
      {A : Type 0} (rounds deadline : ℕ) (m : M S A)
      → ((s : S) → (m s).0 ≢ hangs)
      → ((s : S) → clock s ≤ clock (m s).1)
      → Returns (Enough rounds deadline) m (λ _. Enough rounds deadline)
  passing rounds deadline m ends later = record {
    at = λ s h. settled _ (m s).0 (m s).1 (ends s) (λ a e. (h.0, omega (arith, later s, h)));
  }

  write32-Returns :
      (rounds deadline offset value : ℕ)
      → Returns (Enough rounds deadline) (write32 d.lite offset value) (λ _. Enough rounds deadline)
  unfolding write32 ◌>>=◌
  write32-Returns rounds deadline offset value =
      passing rounds deadline (write32 d.lite offset value)
        (λ s. ground (
          arith,
          validate_offset-ne-hangs d.lite offset 4,
          prompt.write_ends (u32 (d.lite.base_address + offset)) value s,
        ))
        (λ s.
          ground (arith, prompt.steady.write_steady (u32 (d.lite.base_address + offset)) value s))

  checked :
      (rounds deadline offset : ℕ)
      → Returns
          (Enough rounds deadline)
          (lift (validate_offset d.lite offset 4))
          (λ _. Enough rounds deadline)
  unfolding ◌>>=◌
  checked rounds deadline offset =
      passing rounds deadline (lift (validate_offset d.lite offset 4))
        (λ s. validate_offset-ne-hangs d.lite offset 4) (λ s. omega arith)

  write64-Returns :
      (rounds deadline offset value : ℕ)
      → Returns (Enough rounds deadline) (write64 d.lite offset value) (λ _. Enough rounds deadline)
  unfolding write64 write64_at
  write64-Returns rounds deadline offset value =
      Returns-bind _ _ (checked rounds deadline offset) (λ _.
        Returns-bind _ _ (checked rounds deadline (u32 (offset + 4))) (λ _.
          Returns-bind _ _ (write32-Returns rounds deadline _ _)
            (λ _. write32-Returns rounds deadline _ _)))

  clock_Returns :
      (rounds deadline : ℕ)
      → Returns (Enough rounds deadline) (clock_now d.lite.registers) (λ _. Enough rounds deadline)
  unfolding clock_now
  clock_Returns rounds deadline =
      passing rounds deadline (clock_now d.lite.registers) (λ s e. cc)
        (λ s. omega (arith, prompt.steady.now_ticks s))

  -- What a reading of the clock tells.
  abbrev Timed : ℕ → ℕ → ℕ → S → Type 0
  Timed rounds deadline now s = (now ≡ clock s) × (deadline < now + rounds)

  clock_Timed :
      (rounds deadline : ℕ)
      → Returns (Enough (suc rounds) deadline) (clock_now d.lite.registers) (Timed rounds deadline)
  unfolding clock_now
  clock_Timed rounds deadline = record {
    at = λ s h. (
      prompt.steady.now_reads s,
      ground (arith, prompt.steady.now_reads s, prompt.steady.now_ticks s, h),
    );
  }

  stream_Returns :
      (rounds deadline n t : ℕ)
      → Returns
          (Enough rounds deadline)
          (d.stream.read_c2h n t)
          (λ f s. (length f.bytes ≡ n) × Enough rounds deadline s)
  stream_Returns rounds deadline n t = record {
    at = λ s h.
        settled _ (d.stream.read_c2h n t s).0 (d.stream.read_c2h n t s).1 (prompt.stream_ends n t s)
          (λ f e.
            (prompt.stream_fills n t s f e, (h.0, omega (arith, prompt.stream_steady n t s, h))));
  }

  collect-Returns :
      (rounds deadline chunk total : ℕ) (output : List ℕ) (measured : AxiMm2sStatistics)
      → length output ≤ total
      → Returns
          (Enough rounds deadline)
          (collect d rounds deadline chunk total output measured)
          (λ r s. length r.0 ≡ total)
  unfolding collect
  collect-Returns zero deadline chunk total output measured fits =
      Returns-hang (λ s h. absurd (omega arith))
  collect-Returns (suc rounds) deadline chunk total output measured fits =
      Returns-choose _ _ _ (λ done. Returns-pure _ (λ s h. ground (arith, done)))
        (λ more. Returns-bind _ _ (clock_Timed rounds deadline) (λ now.
          Returns-bind _ _ (Returns-throw_if _ _) (λ _.
            Returns-given {P' = Enough rounds deadline} _ (λ s h. (tt, ground (arith, h)))
              (λ _.
                let requested = min chunk (total - length output) in
                Returns-bind _ _ (clock_Returns rounds deadline) (λ started.
                  Returns-bind _ _ (stream_Returns rounds deadline requested _) (λ f.
                    Returns-given _ (λ s h. h)
                      (λ full. Returns-bind _ _ (clock_Returns rounds deadline) (λ ended.
                        Returns-choose _ _ _
                          (λ nothing. collect-Returns rounds deadline chunk total output _ fits)
                          (λ something. Returns-bind _ _ (Returns-throw_if _ _) (λ _.
                            Returns-given {P' = Enough rounds deadline} _ (λ s h. (h.1, h.0))
                              (λ valid.
                                collect-Returns rounds deadline chunk total
                                  (output ++ take (pos_part f.count) f.bytes) _
                                  (ground (
                                    arith,
                                    valid,
                                    full,
                                    length-append output (take (pos_part f.count) f.bytes),
                                    length-take (pos_part f.count) f.bytes,
                                  )))))))))))))

  ending :
      {A : Type 0} {P : S → Type 0} (m : M S A)
      → ((s : S) → (m s).0 ≢ hangs)
      → Returns P m (λ _ _. Unit)
  ending m ends = record { at = λ s h. settled _ (m s).0 (m s).1 (ends s) (λ a e. tt) }

  status-Returns : {P : S → Type 0} → Returns P (status d) (λ _ _. Unit)
  unfolding status read32 ◌>>=◌
  status-Returns = ending (status d) (λ s. ground (
    arith,
    validate_offset-ne-hangs d.lite control 4,
    prompt.read_ends (u32 (d.lite.base_address + control)) s,
  ))

  wait-Returns :
      {P : S → Type 0} (deadline : ℕ)
      → Returns P (wait_masked d.lite control busy_bit 0 deadline (pos 1000)) (λ _ _. Unit)
  wait-Returns deadline = ending _ (λ s.
      (wait_masked_ends d.lite prompt.steady prompt.read_ends control busy_bit 0 deadline (pos 1000)
        s).0)

  started :
      {P : S → Type 0} (span : ℕ)
      → Returns P (clock_now d.lite.registers) (λ begin. Enough (suc span) (begin + span))
  unfolding clock_now
  started span = record { at = λ s h. (omega arith, omega (arith, prompt.steady.now_reads s)) }

  run_read-Returns :
      {P : S → Type 0} (address count total chunk timeout : ℕ)
      → count ≤ total
      → Returns P (run_read d address count total chunk timeout) (λ r s. length r.0 ≡ count)
  unfolding run_read
  run_read-Returns address count total chunk timeout fits =
      let span = timeout * 1000000 in
      Returns-bind _ _ (started span) (λ begin.
        Returns-bind _ _ (write64-Returns (suc span) (begin + span) _ _) (λ _.
          Returns-bind _ _ (write64-Returns (suc span) (begin + span) _ _) (λ _.
            Returns-bind _ _ (write32-Returns (suc span) (begin + span) _ _) (λ _.
              Returns-bind _ _
                (collect-Returns (suc span) (begin + span) chunk total [] _ (omega arith))
                (λ collected.
                  Returns-given {P' = λ s. Unit} _ (λ s h. (h, tt))
                    (λ all. Returns-bind _ _ (wait-Returns (begin + span)) (λ done.
                      Returns-bind _ _ (Returns-throw_if _ _) (λ _.
                        Returns-bind _ _ status-Returns (λ final.
                          Returns-bind _ _ (Returns-throw_if _ _) (λ _.
                            Returns-pure _
                              (λ s h. length-take count collected.0 ∙ omega (arith, all))))))))))))

  read-Returns :
      (address count max_bytes : ℕ) (timeout : ℤ)
      → 0 < d.transport_beat_bytes
      → Returns (λ s. Unit) (read d address count timeout max_bytes) (λ r s. length r.0 ≡ count)
  unfolding read
  read-Returns address count max_bytes timeout positive =
      Returns-bind _ _ (Returns-throw_if _ _) (λ _.
        Returns-choose _ _ _ (λ nothing. Returns-pure _ (λ s h. ground (arith, nothing)))
          (λ something. Returns-bind _ _ (Returns-throw_if _ _) (λ _.
            Returns-bind _ _ (Returns-throw_if _ _) (λ _.
              Returns-bind _ _ (Returns-throw_if _ _) (λ _.
                run_read-Returns address count (round_up d.transport_beat_bytes count) _ _
                  (round_up_lem d.transport_beat_bytes count positive))))))

  -- With hardware that answers and a clock that passes, a read by a driver whose beat is not zero returns or
  -- throws, whatever the fragments that the stream delivers; what it returns has exactly the length that was asked for.
  pub read_length :
      (address count max_bytes : ℕ) (timeout : ℤ) (s : S)
      → 0 < d.transport_beat_bytes
      → let (r, s') = read d address count timeout max_bytes s in
        (r ≢ hangs)
        × ((answer : List ℕ × AxiMm2sStatistics) → r ≡ ok answer → length answer.0 ≡ count)
  read_length address count max_bytes timeout s positive =
      on (read d address count timeout max_bytes s).0 (read d address count timeout max_bytes s).1
        ((read-Returns address count max_bytes timeout positive).at s tt)
    where
      on :
          (r : Outcome (List ℕ × AxiMm2sStatistics)) (s' : S)
          → Then (λ a s. length a.0 ≡ count) r s'
          → (r ≢ hangs)
            × ((answer : List ℕ × AxiMm2sStatistics) → r ≡ ok answer → length answer.0 ≡ count)
      on (ok a) s' h = (λ e. cc, λ answer e. ground (arith, h, e))
      on (throws x) s' h = (λ e. cc, λ answer e. absurd cc)
      on hangs s' h = absurd h
