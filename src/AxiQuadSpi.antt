-- ===== src/AxiQuadSpi.antt =====
-- The AXI Quad SPI controller of dev/src/ip_drivers/qspi.cpp.
-- A timeout is in milliseconds, as the constructor has checked it.
pub mod Deselects
pub mod Payload
pub mod Startup
mod Tests
use mrs_fpga_toolkit.Base.{
  ℕ, zero, suc, ◌+◌, ◌*◌, bit_and, bit_or, Bool, true, false, not, ◌||◌, ltb, leb, ◌==◌, ◌!=◌, List,
  [], ◌∷◌, length,
}
use mrs_fpga_toolkit.Base.Bits.{u8, any_bit}
use mrs_fpga_toolkit.Base.Int.{ℤ, pos_part, is_positive}
use mrs_fpga_toolkit.Machine.{
  M, ⊤, Exception, invalid_argument, runtime_error, command_error, pure, lift, throw, throw_if,
  choose, when, hang, on_throw, discard, ◌>>=◌, ◌>>◌, Bus, clock_now, sleep, for_each,
}
use mrs_fpga_toolkit.IpDriverLite.{IpDriverLite, ip_driver_lite, read32, write32}

abbrev pub ip_interrupt_status : ℕ
ip_interrupt_status = 0x20

abbrev pub software_reset : ℕ
software_reset = 0x40

abbrev pub spi_control : ℕ
spi_control = 0x60

abbrev pub spi_status : ℕ
spi_status = 0x64

abbrev pub data_transmit : ℕ
data_transmit = 0x68

abbrev pub data_receive : ℕ
data_receive = 0x6c

abbrev pub slave_select : ℕ
slave_select = 0x70

abbrev pub software_reset_key : ℕ
software_reset_key = 0x0a

abbrev pub fifo_reset_mask : ℕ
fifo_reset_mask = bit_or 0x00000020 0x00000040

-- `enable | master | manual_select`
abbrev pub run : ℕ
run = bit_or (bit_or 0x00000002 0x00000004) 0x00000080

-- `run | inhibit`
abbrev pub idle : ℕ
idle = bit_or run 0x00000100

abbrev pub interrupt_tx_empty : ℕ
interrupt_tx_empty = 0x00000004

abbrev pub interrupt_command_error : ℕ
interrupt_command_error = 0x00002000

abbrev pub rx_empty : ℕ
rx_empty = 0x00000001

abbrev pub select_none : ℕ
select_none = 0xffffffff

abbrev pub select_flash : ℕ
select_flash = 0xfffffffe

abbrev pub fifo_depth : ℕ
fifo_depth = 256

pub record AxiQuadSpi (S : Type 0) : Type 0 where
  pub lite : IpDriverLite S
  pub timeout : ℕ

-- `bytes.front()`
abbrev pub front : List ℕ → ℕ
front [] = 0
front (b ∷ bytes) = b

module _ {S : Type 0} (q : AxiQuadSpi S) where
  unfoldable pub clear_interrupts : M S ⊤
  clear_interrupts = do
    pending ← read32 q.lite ip_interrupt_status
    when (pending != 0) (write32 q.lite ip_interrupt_status pending)

  unfoldable pub fifo_loop : ℕ → ℕ → M S ⊤
  fifo_loop zero deadline = hang
  fifo_loop (suc rounds) deadline = do
    value ← read32 q.lite spi_control
    choose (any_bit value fifo_reset_mask)
        (do
          time ← clock_now q.lite.registers
          choose (leb deadline time)
              (throw (runtime_error "timeout waiting for AXI Quad SPI FIFO reset"))
              (fifo_loop rounds deadline))
        (pure tt)

  -- Each loop below reads the clock in a round, so a clock that ticks ends it within the timeout in
  -- nanoseconds.
  unfoldable pub reset_fifos : M S ⊤
  reset_fifos = do
    write32 q.lite spi_control (bit_or idle fifo_reset_mask)
    start ← clock_now q.lite.registers
    fifo_loop (suc (q.timeout * 1000000)) (start + q.timeout * 1000000)
    write32 q.lite spi_control idle

  unfoldable pub reset : M S ⊤
  reset = do
    write32 q.lite software_reset software_reset_key
    sleep q.lite.registers 1000000
    reset_fifos
    write32 q.lite slave_select select_none
    clear_interrupts

  -- The polling loop of `transfer`, up to its `break`; `first` is the opcode.
  unfoldable pub poll_loop : ℕ → ℕ → ℕ → M S ⊤
  poll_loop zero deadline first = hang
  poll_loop (suc rounds) deadline first = do
    pending ← read32 q.lite ip_interrupt_status
    choose (any_bit pending interrupt_command_error)
        (do
          write32 q.lite spi_control idle
          write32 q.lite slave_select select_none
          write32 q.lite ip_interrupt_status pending
          throw (command_error first))
        (choose (any_bit pending interrupt_tx_empty) (pure tt) (do
          time ← clock_now q.lite.registers
          choose (leb deadline time)
              (do
                write32 q.lite spi_control idle
                write32 q.lite slave_select select_none
                throw (runtime_error "timeout waiting for AXI Quad SPI TX-empty interrupt"))
              (poll_loop rounds deadline first)))

  -- `for (auto& value : result) value = static_cast<std::uint8_t>(read32(data_receive));`
  unfoldable pub receive : List ℕ → M S (List ℕ)
  receive [] = pure []
  receive (b ∷ bytes) = do
    value ← read32 q.lite data_receive
    rest ← receive bytes
    pure (u8 value ∷ rest)

  unfoldable pub transfer : List ℕ → M S (List ℕ)
  transfer bytes = do
    throw_if (length bytes == 0 || ltb fifo_depth (length bytes))
        (invalid_argument "SPI transfer must contain 1..256 bytes")
    reset_fifos
    write32 q.lite slave_select select_none
    clear_interrupts
    for_each bytes (λ value. write32 q.lite data_transmit value)
    ignored ← read32 q.lite spi_control
    write32 q.lite slave_select select_flash
    write32 q.lite spi_control run
    start ← clock_now q.lite.registers
    poll_loop (suc (q.timeout * 1000000)) (start + q.timeout * 1000000) (front bytes)
    write32 q.lite spi_control idle
    result ← receive bytes
    write32 q.lite slave_select select_none
    clear_interrupts
    pure result

  -- One round of the draining loop of `primeStartupClock`, and its two rounds.
  unfoldable pub drain : ℕ → M S ⊤
  drain zero = pure tt
  drain (suc rounds) = do
    value ← read32 q.lite spi_status
    choose (any_bit value rx_empty) (pure tt) do ignored ← read32 q.lite data_receive; drain rounds

  unfoldable pub prime_startup_clock : M S ⊤
  prime_startup_clock = do
    reset_fifos
    write32 q.lite slave_select select_none
    clear_interrupts
    on_throw
        (do
          for_each (0x9f ∷ 0 ∷ 0 ∷ []) (λ value. write32 q.lite data_transmit value)
          first ← read32 q.lite spi_control
          write32 q.lite spi_control run
          second ← read32 q.lite spi_control
          write32 q.lite spi_control idle
          drain 2)
        (do write32 q.lite spi_control idle; write32 q.lite slave_select select_none)
    write32 q.lite spi_control idle
    write32 q.lite slave_select select_none
    reset

  -- The destructor: `try { … } catch (...) {}`.
  unfoldable pub destroy : M S ⊤
  destroy = discard do write32 q.lite spi_control idle; write32 q.lite slave_select select_none

-- The constructor.
unfoldable pub axi_quad_spi : {S : Type 0} → Bus S → ℕ → ℤ → M S (AxiQuadSpi S)
axi_quad_spi bus base timeout = do
  lite ← lift (ip_driver_lite bus base 0x200)
  throw_if (not (is_positive timeout)) (invalid_argument "AXI Quad SPI timeout must be positive")
  let q : AxiQuadSpi _ = record { lite = lite; timeout = pos_part timeout }
  prime_startup_clock q
  pure q
