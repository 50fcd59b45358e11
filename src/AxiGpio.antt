-- ===== src/AxiGpio.antt =====
-- The AXI GPIO driver of dev/src/ip_drivers/gpio.cpp.
pub mod Interrupts
pub mod Pins
mod Tests
use mrs_fpga_toolkit.Base.{ℕ, ◌+◌, bit_and, Bool, true, false, ◌!=◌, if◌then◌else◌}
use mrs_fpga_toolkit.Base.Bits.{not32, any_bit}
use mrs_fpga_toolkit.Machine.{
  Outcome, ok, throws, M, ⊤, invalid_argument, out_of_range, pure, lift, ◌>>=◌, ◌>>◌, Bus, when,
}
use mrs_fpga_toolkit.IpDriverLite.{IpDriverLite, ip_driver_lite, read32, write32, update32}

pub data AxiGpioChannel : Type 0 where
  channel1 channel2 : AxiGpioChannel

abbrev pub channel1_data : ℕ
channel1_data = 0x000

abbrev pub channel1_direction : ℕ
channel1_direction = 0x004

abbrev pub channel2_data : ℕ
channel2_data = 0x008

abbrev pub channel2_direction : ℕ
channel2_direction = 0x00c

abbrev pub global_interrupt_enable : ℕ
global_interrupt_enable = 0x11c

abbrev pub interrupt_status_register : ℕ
interrupt_status_register = 0x120

abbrev pub interrupt_enable : ℕ
interrupt_enable = 0x128

abbrev pub global_interrupt_bit : ℕ
global_interrupt_bit = 0x80000000

abbrev pub channel1_interrupt : ℕ
channel1_interrupt = 1

abbrev pub channel2_interrupt : ℕ
channel2_interrupt = 2

pub record AxiGpio (S : Type 0) : Type 0 where
  pub lite : IpDriverLite S
  pub dual_channel : Bool

-- The constructor.
unfoldable pub axi_gpio : {S : Type 0} → Bus S → ℕ → Bool → M S (AxiGpio S)
axi_gpio bus base dual = do
  lite ← lift (ip_driver_lite bus base 0x12c)
  pure (record { lite = lite; dual_channel = dual })

module _ {S : Type 0} (g : AxiGpio S) where
  -- The interrupts that the instance has: `channel1_interrupt | (dual ? channel2_interrupt : 0)`.
  abbrev pub supported : ℕ
  supported = if g.dual_channel then 3 else 1

  unfoldable pub data_offset : AxiGpioChannel → Outcome ℕ
  data_offset channel1 = ok channel1_data
  data_offset channel2 =
      if g.dual_channel
      then ok channel2_data
      else throws (out_of_range "AXI GPIO channel is not present in this IP instance")

  unfoldable pub direction_offset : AxiGpioChannel → Outcome ℕ
  direction_offset channel1 = ok channel1_direction
  direction_offset channel2 =
      if g.dual_channel
      then ok channel2_direction
      else throws (out_of_range "AXI GPIO channel is not present in this IP instance")

  unfoldable pub validate_interrupt_mask : ℕ → Outcome ℕ
  validate_interrupt_mask channel_mask =
      if any_bit channel_mask (not32 supported)
      then throws (invalid_argument "AXI GPIO interrupt mask selects an unavailable channel")
      else ok (bit_and channel_mask supported)

  unfoldable pub read_data : AxiGpioChannel → M S ℕ
  read_data channel = do offset ← lift (data_offset channel); read32 g.lite offset

  unfoldable pub write_data : AxiGpioChannel → ℕ → M S ⊤
  write_data channel value = do offset ← lift (data_offset channel); write32 g.lite offset value

  unfoldable pub direction : AxiGpioChannel → M S ℕ
  direction channel = do offset ← lift (direction_offset channel); read32 g.lite offset

  unfoldable pub set_direction : AxiGpioChannel → ℕ → M S ⊤
  set_direction channel input_mask = do
    offset ← lift (direction_offset channel)
    write32 g.lite offset input_mask

  unfoldable pub update_data : AxiGpioChannel → ℕ → ℕ → M S ℕ
  update_data channel mask value = do
    offset ← lift (data_offset channel)
    update32 g.lite offset mask value

  unfoldable pub global_interrupt_enabled : M S Bool
  global_interrupt_enabled = do
    value ← read32 g.lite global_interrupt_enable
    pure (any_bit value global_interrupt_bit)

  unfoldable pub set_global_interrupt_enabled : Bool → M S ⊤
  set_global_interrupt_enabled enabled =
      write32 g.lite global_interrupt_enable (if enabled then global_interrupt_bit else 0)

  unfoldable pub interrupt_enable_mask : M S ℕ
  interrupt_enable_mask = do value ← read32 g.lite interrupt_enable; pure (bit_and value supported)

  unfoldable pub set_interrupt_enable_mask : ℕ → M S ⊤
  set_interrupt_enable_mask channel_mask = do
    selected ← lift (validate_interrupt_mask channel_mask)
    write32 g.lite interrupt_enable selected

  unfoldable pub interrupt_status : M S ℕ
  interrupt_status = do
    value ← read32 g.lite interrupt_status_register
    pure (bit_and value supported)

  unfoldable pub clear_interrupts : ℕ → M S ⊤
  unfolding interrupt_status
  clear_interrupts channel_mask = do
    selected ← lift (validate_interrupt_mask channel_mask)
    pending ← interrupt_status
    let clear_mask = bit_and pending selected
    when (clear_mask != 0) (write32 g.lite interrupt_status_register clear_mask)
