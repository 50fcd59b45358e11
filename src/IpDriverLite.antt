-- ===== src/IpDriverLite.antt =====
-- The bounds-checked register helpers of dev/src/ip_driver_lite.cpp, over any register transport.
-- A register offset, an address and a value are `uint32_t` numbers; `wait_masked` returns beside its
-- result what the source stores through `final_value`.
pub mod Bounds
pub mod Update
pub mod Stored
pub mod Words
pub mod Waiting
pub mod Window
mod Tests
use mrs_fpga_toolkit.Base.{
  ℕ, zero, suc, ◌+◌, ◌-◌, ◌*◌, ◌/◌, ◌^◌, bit_and, bit_or, Bool, true, false, ◌||◌, ltb, leb, ◌==◌,
  ◌!=◌, if◌then◌else◌,
}
use mrs_fpga_toolkit.Base.Bits.{not32, u32, any_bit}
use mrs_fpga_toolkit.Base.Int.{ℤ, pos_part, is_negative}
use mrs_fpga_toolkit.Machine.{
  Outcome, ok, throws, M, ⊤, invalid_argument, out_of_range, pure, lift, throw_if, choose, hang,
  ◌>>=◌, ◌>>◌, Bus, clock_now, sleep, when,
}

pub record IpDriverLite (S : Type 0) : Type 0 where
  pub registers : Bus S
  pub base_address : ℕ
  pub register_span : ℕ

-- The constructor.
unfoldable pub ip_driver_lite : {S : Type 0} → Bus S → ℕ → ℕ → Outcome (IpDriverLite S)
ip_driver_lite bus base span =
    if any_bit base 3
    then throws (invalid_argument "AXI-Lite IP base address must be 32-bit aligned")
    else if ltb span 4 || any_bit span 3
    then throws (invalid_argument "AXI-Lite IP register span must be positive and aligned")
    else ok (record { registers = bus; base_address = base; register_span = span })

unfoldable pub set_base_address : {S : Type 0} → IpDriverLite S → ℕ → Outcome (IpDriverLite S)
set_base_address d base =
    if any_bit base 3
    then throws (invalid_argument "AXI-Lite IP base address must be 32-bit aligned")
    else ok (record d { base_address = base })

unfoldable pub validate_offset : {S : Type 0} → IpDriverLite S → ℕ → ℕ → Outcome ⊤
validate_offset d offset width =
    if any_bit offset 3
    then throws (invalid_argument "AXI-Lite register offset must be 32-bit aligned")
    else if ltb d.register_span width || ltb (d.register_span - width) offset
    then throws (out_of_range "AXI-Lite register offset lies outside the IP span")
    else if ltb (0xffffffff - offset) d.base_address
    then throws (out_of_range "AXI-Lite absolute register address overflows 32 bits")
    else ok tt

-- `(static_cast<std::uint64_t>(high) << 32U) | low`
abbrev pub join64 : ℕ → ℕ → ℕ
join64 high low = bit_or (high * 2 ^ 32) low

-- `(old & ~mask) | (value & mask)`
abbrev pub merge_bits : ℕ → ℕ → ℕ → ℕ
merge_bits old mask value = bit_or (bit_and old (not32 mask)) (bit_and value mask)

module _ {S : Type 0} (d : IpDriverLite S) where
  unfoldable pub read32 : ℕ → M S ℕ
  read32 offset = do
    lift (validate_offset d offset 4)
    d.registers.read_reg (u32 (d.base_address + offset))

  unfoldable pub write32 : ℕ → ℕ → M S ⊤
  write32 offset value = do
    lift (validate_offset d offset 4)
    d.registers.write_reg (u32 (d.base_address + offset)) value

  -- `read64` with both offsets; with one, the high word is the next register.
  unfoldable pub read64_at : ℕ → ℕ → M S ℕ
  read64_at low_offset high_offset = do
    lift (validate_offset d low_offset 4)
    lift (validate_offset d high_offset 4)
    low ← read32 low_offset
    high ← read32 high_offset
    pure (join64 high low)

  unfoldable pub read64 : ℕ → M S ℕ
  unfolding read64_at
  read64 low_offset = read64_at low_offset (u32 (low_offset + 4))

  -- One round of the loop of `read64Stable`: the two readings of the high word, and the low word.
  unfoldable pub read64_round : ℕ → ℕ → M S (record { first : ℕ; low : ℕ; second : ℕ })
  read64_round low_offset high_offset = do
    first_high ← read32 high_offset
    low ← read32 low_offset
    second_high ← read32 high_offset
    pure (record { first = first_high; low = low; second = second_high })

  unfoldable pub read64_loop : ℕ → ℕ → ℕ → M S ℕ
  read64_loop zero low_offset high_offset = hang
  read64_loop (suc rounds) low_offset high_offset = do
    r ← read64_round low_offset high_offset
    choose (r.first == r.second) (pure (join64 r.second r.low))
        (read64_loop rounds low_offset high_offset)

  -- The source puts no bound on the rounds.
  unfoldable pub read64_stable : ℕ → ℕ → ℕ → M S ℕ
  unfolding read64_loop read64_round
  read64_stable rounds low_offset high_offset = do
    lift (validate_offset d low_offset 4)
    lift (validate_offset d high_offset 4)
    read64_loop rounds low_offset high_offset

  unfoldable pub write64_at : ℕ → ℕ → ℕ → M S ⊤
  write64_at low_offset high_offset value = do
    lift (validate_offset d low_offset 4)
    lift (validate_offset d high_offset 4)
    write32 low_offset (u32 value)
    write32 high_offset (u32 (value / 2 ^ 32))

  unfoldable pub write64 : ℕ → ℕ → M S ⊤
  unfolding write64_at
  write64 low_offset value = write64_at low_offset (u32 (low_offset + 4)) value

  unfoldable pub update32 : ℕ → ℕ → ℕ → M S ℕ
  update32 offset mask value = do
    old ← read32 offset
    let updated = merge_bits old mask value
    write32 offset updated
    pure updated

  -- The loop of `waitMasked`; `deadline` is in nanoseconds, `interval` in microseconds.
  unfoldable pub wait_loop :
      ℕ → ℕ → ℕ → ℕ → ℕ → ℕ → M S (record { reached : Bool; final_value : ℕ })
  wait_loop zero offset mask expected deadline interval = hang
  wait_loop (suc rounds) offset mask expected deadline interval = do
    observed ← read32 offset
    choose (bit_and observed mask == bit_and expected mask)
        (pure (record { reached = true; final_value = observed }))
        do
          time ← clock_now d.registers
          choose (leb deadline time) (pure (record { reached = false; final_value = observed })) do
            when (interval != 0) (sleep d.registers (interval * 1000))
            wait_loop rounds offset mask expected deadline interval

  -- Every round reads the clock, so a clock that ticks ends the loop within `deadline + 1` rounds.
  unfoldable pub wait_masked : ℕ → ℕ → ℕ → ℕ → ℤ → M S (record { reached : Bool; final_value : ℕ })
  unfolding wait_loop
  wait_masked offset mask expected deadline poll_interval = do
    lift (validate_offset d offset 4)
    throw_if (is_negative poll_interval)
        (invalid_argument "AXI-Lite polling interval must not be negative")
    wait_loop (suc deadline) offset mask expected deadline (pos_part poll_interval)
