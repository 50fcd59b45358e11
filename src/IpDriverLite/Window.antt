-- ===== src/IpDriverLite/Window.antt =====
-- Where the accesses of the methods of `IpDriverLite` land: invariants of a state that survive every
-- access inside the window.
use mrs_fpga_toolkit.Base.{ℕ, zero, suc, ◌+◌, ◌%◌, ◌≤◌, ◌<◌, ◌≡◌, arith, All}
use mrs_fpga_toolkit.Base.Bits.{u32}
use mrs_fpga_toolkit.Base.Int.{ℤ}
use mrs_fpga_toolkit.Machine.{Bus, ok, clock_now, sleep}
use mrs_fpga_toolkit.Machine.Keeps.{Keeps, Keeps-bind_lift, Keeps-bind, Keeps-choose, keeps_rules}
use mrs_fpga_toolkit.Machine.Recorded.{Recorded, recorded, address}
use mrs_fpga_toolkit.IpDriverLite.{
  IpDriverLite, validate_offset, read32, write32, read64_at, read64_loop, read64_round,
  read64_stable, write64_at, update32, wait_loop, wait_masked,
}
use mrs_fpga_toolkit.IpDriverLite.Bounds.{IsValid, validate_offset_iff}

-- `a` is the address of a whole aligned register between `base` and `base + span`.
abbrev pub InWindow : ℕ → ℕ → ℕ → Type 0
InWindow base span a = (base ≤ a) × (a + 4 ≤ base + span) × (a % 4 ≡ 0) × (a < 0x100000000)

-- `P` survives each access that the window allows.
pub record KeepsInside {S : Type 0} (P : S → Type 0) (d : IpDriverLite S) : Type 0 where
  pub valid : IsValid d
  pub read_kept :
      (a : ℕ) → InWindow d.base_address d.register_span a → Keeps P (d.registers.read_reg a)
  pub write_kept :
      (a v : ℕ) → InWindow d.base_address d.register_span a → Keeps P (d.registers.write_reg a v)
  pub now_kept : Keeps P (clock_now d.registers)
  pub sleep_kept : (ns : ℕ) → Keeps P (sleep d.registers ns)

passed-InWindow :
    {S : Type 0} (d : IpDriverLite S) (offset : ℕ)
    → IsValid d
    → offset < 0x100000000
    → validate_offset d offset 4 ≡ ok tt
    → InWindow d.base_address d.register_span (u32 (d.base_address + offset))
passed-InWindow d offset v small passed =
    omega (arith, (validate_offset_iff d offset small).0 passed)

module _ {S : Type 0} {P : S → Type 0} (d : IpDriverLite S) (inside : KeepsInside P d) where
  pub read32-Keeps : (offset : ℕ) → offset < 0x100000000 → Keeps P (read32 d offset)
  unfolding read32
  read32-Keeps offset small =
      Keeps-bind_lift (validate_offset d offset 4)
        (λ _. d.registers.read_reg (u32 (d.base_address + offset)))
        (λ a passed. inside.read_kept _ (passed-InWindow d offset inside.valid small passed))

  pub write32-Keeps : (offset value : ℕ) → offset < 0x100000000 → Keeps P (write32 d offset value)
  unfolding write32
  write32-Keeps offset value small =
      Keeps-bind_lift (validate_offset d offset 4)
        (λ _. d.registers.write_reg (u32 (d.base_address + offset)) value)
        (λ a passed. inside.write_kept _ _ (passed-InWindow d offset inside.valid small passed))

  pub now-Keeps : Keeps P (clock_now d.registers)
  now-Keeps = inside.now_kept

  pub sleep-Keeps : (ns : ℕ) → Keeps P (sleep d.registers ns)
  sleep-Keeps = inside.sleep_kept

pub ruleset window_rules = (keeps_rules, read32-Keeps, write32-Keeps, now-Keeps, sleep-Keeps)

module _ {S : Type 0} {P : S → Type 0} (d : IpDriverLite S) (inside : KeepsInside P d) where
  pub read64_at-Keeps :
      (low high : ℕ) → low < 0x100000000 → high < 0x100000000 → Keeps P (read64_at d low high)
  unfolding read64_at
  read64_at-Keeps low high l h = search window_rules

  pub write64_at-Keeps :
      (low high value : ℕ)
      → low < 0x100000000
      → high < 0x100000000
      → Keeps P (write64_at d low high value)
  unfolding write64_at
  write64_at-Keeps low high value l h = search window_rules

  read64_loop-Keeps :
      (rounds low high : ℕ)
      → low < 0x100000000
      → high < 0x100000000
      → Keeps P (read64_loop d rounds low high)
  unfolding read64_loop read64_round
  read64_loop-Keeps zero low high l h = search window_rules
  read64_loop-Keeps (suc n) low high l h =
      let ih = read64_loop-Keeps n low high l h in search window_rules depth 9

  pub read64_stable-Keeps :
      (rounds low high : ℕ)
      → low < 0x100000000
      → high < 0x100000000
      → Keeps P (read64_stable d rounds low high)
  unfolding read64_stable
  read64_stable-Keeps rounds low high l h =
      let loop = read64_loop-Keeps rounds low high l h in search window_rules

  pub update32-Keeps :
      (offset mask value : ℕ) → offset < 0x100000000 → Keeps P (update32 d offset mask value)
  unfolding update32
  update32-Keeps offset mask value h = search window_rules

  wait_loop-Keeps :
      (rounds offset mask expected deadline interval : ℕ)
      → offset < 0x100000000
      → Keeps P (wait_loop d rounds offset mask expected deadline interval)
  unfolding wait_loop
  wait_loop-Keeps zero offset mask expected deadline interval h = search window_rules
  wait_loop-Keeps (suc n) offset mask expected deadline interval h =
      let ih = wait_loop-Keeps n offset mask expected deadline interval h in
      search window_rules depth 9

  pub wait_masked-Keeps :
      (offset mask expected deadline : ℕ) (interval : ℤ)
      → offset < 0x100000000
      → Keeps P (wait_masked d offset mask expected deadline interval)
  unfolding wait_masked
  wait_masked-Keeps offset mask expected deadline interval h =
      search (window_rules, wait_loop-Keeps)

-- The accesses recorded so far lie in the window of `d`.
abbrev pub LogInside : {S : Type 0} → IpDriverLite (Recorded S) → Recorded S → Type 0
LogInside d s = All (λ e. InWindow d.base_address d.register_span (address e)) s.log

-- A driver whose register accesses are recorded.
abbrev pub on_record : {S : Type 0} → Bus S → ℕ → ℕ → IpDriverLite (Recorded S)
on_record bus base span = record {
  registers = recorded bus;
  base_address = base;
  register_span = span;
}

pub LogInside-KeepsInside :
    {S : Type 0} (bus : Bus S) (base span : ℕ)
    → IsValid (on_record bus base span)
    → KeepsInside (LogInside (on_record bus base span)) (on_record bus base span)
unfolding clock_now sleep
LogInside-KeepsInside bus base span v = record {
  valid = v;
  read_kept = λ a inside. record { at = λ s h. (inside, h) };
  write_kept = λ a w inside. record { at = λ s h. (inside, h) };
  now_kept = record { at = λ s h. h };
  sleep_kept = λ ns. record { at = λ s h. h };
}

-- Whatever the hardware answers and however the call ends, each access that a method of a
-- constructed driver makes is of a whole aligned register inside the window of its IP.
pub stays_inside :
    {S : Type 0} (bus : Bus S) (base span offset other value mask deadline rounds : ℕ)
    (interval : ℤ)
    → IsValid (on_record bus base span)
    → offset < 0x100000000
    → other < 0x100000000
    → let d = on_record bus base span in
      Keeps (LogInside d) (read32 d offset)
      × Keeps (LogInside d) (write32 d offset value)
      × Keeps (LogInside d) (read64_at d offset other)
      × Keeps (LogInside d) (read64_stable d rounds offset other)
      × Keeps (LogInside d) (write64_at d offset other value)
      × Keeps (LogInside d) (update32 d offset mask value)
      × Keeps (LogInside d) (wait_masked d offset mask value deadline interval)
stays_inside bus base span offset other value mask deadline rounds interval v h k =
    let d = on_record bus base span in
    let inside = LogInside-KeepsInside bus base span v in
    (
      read32-Keeps d inside offset h,
      write32-Keeps d inside offset value h,
      read64_at-Keeps d inside offset other h k,
      read64_stable-Keeps d inside rounds offset other h k,
      write64_at-Keeps d inside offset other value h k,
      update32-Keeps d inside offset mask value h,
      wait_masked-Keeps d inside offset mask value deadline interval h,
    )
