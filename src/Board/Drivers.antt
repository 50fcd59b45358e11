-- ===== src/Board/Drivers.antt =====
-- Reading through the drivers of `BoardAccess`, fpgactl/src/board.cpp.
use mrs_fpga_toolkit.Base.{ℕ, Bool, true, false, ◌||◌, ltb, if◌then◌else◌}
use mrs_fpga_toolkit.Base.Bits.{any_bit}
use mrs_fpga_toolkit.Machine.{Bus, ok, throws}
use mrs_fpga_toolkit.Machine.Keeps.{Keeps, keeps_rules}
use mrs_fpga_toolkit.Machine.Hands.{Gives, Hands, Hands-pure, Hands-lift, Hands-bind}
use mrs_fpga_toolkit.IpDriverLite.{IpDriverLite, ip_driver_lite, read32, read64_at}
use mrs_fpga_toolkit.AxiGpio.{AxiGpio, AxiGpioChannel, axi_gpio, read_data}
use mrs_fpga_toolkit.DeviceDna.{device_dna, value}
use mrs_fpga_toolkit.Board.{
  BoardLayout, BoardAccess, xadc, temperature_sample, vccint_sample, vccaux_sample, board_access,
  product_id, image_version, snapshot,
}

-- Reading a register keeps the invariant.
abbrev pub IsReading : {S : Type 0} → (S → Type 0) → Bus S → Type 0
IsReading P bus = (a : ℕ) → Keeps P (bus.read_reg a)

module _ {S : Type 0} {P : S → Type 0} (d : IpDriverLite S)
    (reading : IsReading P d.registers) where
  read32-Reads : (offset : ℕ) → Keeps P (read32 d offset)
  unfolding read32
  read32-Reads offset = search (keeps_rules, reading)

  read64_at-Reads : (low high : ℕ) → Keeps P (read64_at d low high)
  unfolding read64_at
  read64_at-Reads low high = search (keeps_rules, read32-Reads) depth 12

-- The three drivers of the board read through its registers.
pub record ReadsBoard {S : Type 0} (P : S → Type 0) (board : BoardAccess S) : Type 0 where
  gpio_reads : IsReading P board.gpio.lite.registers
  dna_reads : IsReading P board.dna.registers
  xadc_reads : IsReading P board.xadc.registers

module _ {S : Type 0} {P : S → Type 0} (registers : Bus S) (reading : IsReading P registers) where
  abbrev Made : IpDriverLite S → Type 0
  Made d = IsReading P d.registers

  ip_driver_lite-Made : (base span : ℕ) → Gives Made (ip_driver_lite registers base span)
  unfolding ip_driver_lite
  ip_driver_lite-Made base span = on (any_bit base 3) (ltb span 4 || any_bit span 3) _ _
    where
      on :
          (b c : Bool) (e f : _)
          → Gives Made (
              if b
              then throws e
              else if c
              then throws f
              else ok (record { registers = registers; base_address = base; register_span = span }))
      on true c e f = tt
      on false true e f = tt
      on false false e f = reading

  pub board_access-Hands :
      (layout : BoardLayout) → Hands P (ReadsBoard P) (board_access registers layout)
  unfolding board_access axi_gpio device_dna xadc
  board_access-Hands layout =
      Hands-bind {R = λ (g : AxiGpio S). Made g.lite} _ _
        (Hands-bind _ _ (Hands-lift _ (ip_driver_lite-Made layout.gpio_base 0x12c))
          (λ lite q. Hands-pure _ q))
        (λ g gq. Hands-bind _ _ (Hands-lift _ (ip_driver_lite-Made layout.dna_base 0x0c)) (λ dna dq.
          Hands-bind _ _ (Hands-lift _ (ip_driver_lite-Made layout.xadc_base 0x300))
            (λ x xq. Hands-pure _ record { gpio_reads = gq; dna_reads = dq; xadc_reads = xq })))

module _ {S : Type 0} {P : S → Type 0} (board : BoardAccess S) (reads : ReadsBoard P board) where
  read_data-Reads : (channel : AxiGpioChannel) → Keeps P (read_data board.gpio channel)
  unfolding read_data
  read_data-Reads channel =
      let read = read32-Reads board.gpio.lite reads.gpio_reads in search keeps_rules

  pub value-Reads : Keeps P (value board.dna)
  unfolding value
  value-Reads = read64_at-Reads board.dna reads.dna_reads 0x00 0x08

  pub temperature_sample-Reads : Keeps P (temperature_sample board.xadc)
  unfolding temperature_sample
  temperature_sample-Reads =
      let read = read32-Reads board.xadc reads.xadc_reads in search keeps_rules

  pub vccint_sample-Reads : Keeps P (vccint_sample board.xadc)
  unfolding vccint_sample
  vccint_sample-Reads = let read = read32-Reads board.xadc reads.xadc_reads in search keeps_rules

  pub vccaux_sample-Reads : Keeps P (vccaux_sample board.xadc)
  unfolding vccaux_sample
  vccaux_sample-Reads = let read = read32-Reads board.xadc reads.xadc_reads in search keeps_rules

  pub product_id-Reads : Keeps P (product_id board)
  unfolding product_id
  product_id-Reads = search (keeps_rules, read_data-Reads)

  pub image_version-Reads : Keeps P (image_version board)
  unfolding image_version
  image_version-Reads = search (keeps_rules, read_data-Reads)

  pub snapshot-Reads : Keeps P (snapshot board)
  unfolding snapshot
  snapshot-Reads =
      let product = product_id-Reads in
      let number = image_version-Reads in
      let serial = value-Reads in
      let degrees = temperature_sample-Reads in
      let internal = vccint_sample-Reads in
      let auxiliary = vccaux_sample-Reads in search keeps_rules depth 16
