-- ===== src/AxiHwIcap.antt =====
-- The AXI HWICAP driver of dev/src/ip_drivers/hwicap.cpp: warm boot from flash.
-- A timeout is in milliseconds, as the constructor has checked it.
pub mod Atomic
mod Tests
use mrs_fpga_toolkit.Base.{
  ℕ, zero, suc, ◌+◌, ◌*◌, ◌/◌, bit_and, bit_or, Bool, true, false, not, ◌||◌, ltb, leb, ◌==◌, ◌!=◌,
  List, [], ◌∷◌,
}
use mrs_fpga_toolkit.Base.Bits.{not32, any_bit}
use mrs_fpga_toolkit.Base.Int.{ℤ, pos_part, is_positive}
use mrs_fpga_toolkit.Machine.{
  M, ⊤, Exception, invalid_argument, runtime_error, pure, lift, throw, throw_if, choose, hang,
  ◌>>=◌, ◌>>◌, Bus, clock_now, sleep, for_each,
}
use mrs_fpga_toolkit.IpDriverLite.{IpDriverLite, ip_driver_lite, read32, write32}

abbrev pub write_fifo : ℕ
write_fifo = 0x100

abbrev pub control : ℕ
control = 0x10c

abbrev pub status : ℕ
status = 0x110

abbrev pub write_vacancy : ℕ
write_vacancy = 0x114

abbrev pub control_write : ℕ
control_write = 0x00000001

abbrev pub control_read : ℕ
control_read = 0x00000002

abbrev pub control_reset : ℕ
control_reset = 0x00000008

abbrev pub control_active : ℕ
control_active = bit_or control_write control_read

abbrev pub status_ready : ℕ
status_ready = bit_or 0x00000001 0x00000004

abbrev pub maximum_flash_address : ℕ
maximum_flash_address = 0x00ffff00

pub record AxiHwIcap (S : Type 0) : Type 0 where
  pub lite : IpDriverLite S
  pub timeout : ℕ
  pub expected_fifo_vacancy : ℕ

-- The constructor.
unfoldable pub axi_hw_icap : {S : Type 0} → Bus S → ℕ → ℤ → ℕ → M S (AxiHwIcap S)
axi_hw_icap bus base timeout vacancy = do
  lite ← lift (ip_driver_lite bus base 0x200)
  throw_if (not (is_positive timeout) || ltb vacancy 8)
      (invalid_argument "HWICAP timeout must be positive and FIFO vacancy at least 8")
  pure (record { lite = lite; timeout = pos_part timeout; expected_fifo_vacancy = vacancy })

-- The packet that `triggerIprog` sends: WBSTAR carries the bits above the lowest eight.
abbrev pub iprog_words : ℕ → List ℕ
iprog_words flash_address =
    0xffffffff
    ∷ 0xaa995566
    ∷ 0x20000000
    ∷ 0x30020001
    ∷ (flash_address / 0x100)
    ∷ 0x30008001
    ∷ 0x0000000f
    ∷ 0x20000000
    ∷ []

module _ {S : Type 0} (h : AxiHwIcap S) where
  unfoldable pub require_ready : M S ⊤
  require_ready = do
    value ← read32 h.lite status
    throw_if (bit_and value status_ready != status_ready)
        (runtime_error "AXI HWICAP is not ready; DONE and EOS are required")

  unfoldable pub validate : M S ⊤
  unfolding require_ready
  validate = do
    require_ready
    value ← read32 h.lite control
    throw_if (any_bit value (not32 0x1f)) (runtime_error "AXI HWICAP control has reserved bits set")
    vacancy ← read32 h.lite write_vacancy
    throw_if (ltb h.expected_fifo_vacancy vacancy)
        (runtime_error "unexpected AXI HWICAP FIFO vacancy")

  unfoldable pub idle_loop : ℕ → ℕ → M S ⊤
  idle_loop zero deadline = hang
  idle_loop (suc rounds) deadline = do
    value ← read32 h.lite control
    choose (any_bit value control_active)
        (do
          time ← clock_now h.lite.registers
          choose (leb deadline time) (throw (runtime_error "timeout waiting for AXI HWICAP"))
              (idle_loop rounds deadline))
        (pure tt)

  -- A round reads the clock, so a clock that ticks ends the loop within the timeout in nanoseconds.
  unfoldable pub wait_idle : M S ⊤
  unfolding idle_loop
  wait_idle = do
    start ← clock_now h.lite.registers
    idle_loop (suc (h.timeout * 1000000)) (start + h.timeout * 1000000)

  unfoldable pub reset : M S ⊤
  unfolding wait_idle require_ready
  reset = do
    value ← read32 h.lite control
    let inactive = bit_and value (not32 control_active)
    write32 h.lite control (bit_or inactive control_reset)
    sleep h.lite.registers 10000
    write32 h.lite control (bit_and inactive (not32 control_reset))
    wait_idle
    require_ready
    vacancy ← read32 h.lite write_vacancy
    throw_if (vacancy != h.expected_fifo_vacancy)
        (runtime_error "AXI HWICAP FIFO did not return to its expected empty state")

  unfoldable pub trigger_iprog : ℕ → M S ⊤
  trigger_iprog flash_address = do
    throw_if (ltb maximum_flash_address flash_address || any_bit flash_address 0xff)
        (invalid_argument "warm-boot address must be 256-byte aligned and within 0x00ffff00")
    reset
    vacancy ← read32 h.lite write_vacancy
    throw_if (ltb vacancy 8) (runtime_error "AXI HWICAP has insufficient write-FIFO vacancy")
    for_each (iprog_words flash_address) (λ word. write32 h.lite write_fifo word)
    again ← read32 h.lite write_vacancy
    write32 h.lite control control_write
    sleep h.lite.registers 50000000
