-- ===== src/Board.antt =====
-- The board command: `BoardAccess` and `runBoard` of fpgactl/src/board.cpp, over the drivers of the GPIO block, of the
-- Device DNA register and of the XADC of dev/src/ip_drivers/xadc.cpp. What the command prints of a sample is in floating
-- point: `Units` stands for the conversion of a sample together with its printing.
mod Drivers
pub mod Reads
mod Tests
use mrs_fpga_toolkit.Base.{
  ℕ, ◌-◌, Bool, true, ◌++◌, length, replicate, Text, codes, to_string, to_hex, Option, none, some,
  if◌then◌else◌,
}
use mrs_fpga_toolkit.Machine.{M, ⊤, Bus, Outcome, pure, lift, ◌>>=◌, ◌>>◌}
use mrs_fpga_toolkit.IpDriverLite.{IpDriverLite, ip_driver_lite, read32}
use mrs_fpga_toolkit.AxiGpio.{AxiGpio, axi_gpio, channel1, channel2, read_data}
use mrs_fpga_toolkit.DeviceDna.{device_dna, value, sample}
use mrs_fpga_toolkit.BoardText.{decode_product_id, json_escape}
use mrs_fpga_toolkit.Common.{Host, say}
use mrs_fpga_toolkit.QspiTool.{with_user}

pub data BoardAction : Type 0 where
  show : BoardAction
  name : BoardAction
  version : BoardAction
  dna : BoardAction
  temperature : BoardAction
  voltages : BoardAction

pub record BoardLayout : Type 0 where
  pub gpio_base : ℕ
  pub dna_base : ℕ
  pub xadc_base : ℕ

pub record BoardCommand : Type 0 where
  pub action : BoardAction
  pub device : Option Text
  pub device_index : ℕ
  pub layout : BoardLayout
  pub json : Bool

-- A sample of twelve bits with so many digits after the point: in degrees, and in volts.
pub record Units : Type 0 where
  pub celsius : ℕ → ℕ → Text
  pub volts : ℕ → ℕ → Text

unfoldable pub xadc : {S : Type 0} → Bus S → ℕ → Outcome (IpDriverLite S)
xadc bus base = ip_driver_lite bus base 0x300

module _ {S : Type 0} (x : IpDriverLite S) where
  unfoldable pub temperature_sample : M S ℕ
  temperature_sample = do raw ← read32 x 0x200; pure (sample raw)

  unfoldable pub vccint_sample : M S ℕ
  vccint_sample = do raw ← read32 x 0x204; pure (sample raw)

  unfoldable pub vccaux_sample : M S ℕ
  vccaux_sample = do raw ← read32 x 0x208; pure (sample raw)

pub record BoardSnapshot : Type 0 where
  pub product_id : Text
  pub version : ℕ
  pub device_dna : ℕ
  pub temperature : ℕ
  pub vccint : ℕ
  pub vccaux : ℕ

pub record BoardAccess (S : Type 0) : Type 0 where
  pub gpio : AxiGpio S
  pub dna : IpDriverLite S
  pub xadc : IpDriverLite S

unfoldable pub board_access : {S : Type 0} → Bus S → BoardLayout → M S (BoardAccess S)
board_access registers layout = do
  gpio ← axi_gpio registers layout.gpio_base true
  dna_register ← lift (device_dna registers layout.dna_base)
  samples ← lift (xadc registers layout.xadc_base)
  pure record { gpio = gpio; dna = dna_register; xadc = samples }

module _ {S : Type 0} (board : BoardAccess S) where
  unfoldable pub product_id : M S Text
  product_id = do word ← read_data board.gpio channel1; pure (decode_product_id word)

  unfoldable pub image_version : M S ℕ
  image_version = read_data board.gpio channel2

  unfoldable pub snapshot : M S BoardSnapshot
  snapshot = do
    product ← product_id
    number ← image_version
    serial ← value board.dna
    degrees ← temperature_sample board.xadc
    internal ← vccint_sample board.xadc
    auxiliary ← vccaux_sample board.xadc
    pure record {
      product_id = product;
      version = number;
      device_dna = serial;
      temperature = degrees;
      vccint = internal;
      vccaux = auxiliary;
    }

-- `setw(width)` and `setfill('0')` for a number in hexadecimal.
abbrev pub filled : ℕ → ℕ → Text
filled width n = replicate (width - length (to_hex n)) 48 ++ to_hex n

unfoldable pub snapshot_json : Units → BoardSnapshot → Text
snapshot_json units b =
    codes "{\n  \"product_id\": \""
    ++ json_escape b.product_id
    ++ codes "\",\n  \"version\": "
    ++ to_string b.version
    ++ codes ",\n  \"device_dna\": \"0x"
    ++ filled 16 b.device_dna
    ++ codes "\",\n  \"temperature_celsius\": "
    ++ units.celsius 6 b.temperature
    ++ codes ",\n  \"vccint_volts\": "
    ++ units.volts 6 b.vccint
    ++ codes ",\n  \"vccaux_volts\": "
    ++ units.volts 6 b.vccaux
    ++ codes "\n}\n"

unfoldable pub snapshot_text : Units → BoardSnapshot → Text
snapshot_text units b =
    codes "product:      "
    ++ b.product_id
    ++ codes "\nversion:      0x"
    ++ filled 8 b.version
    ++ codes "\ndevice DNA:   0x"
    ++ filled 16 b.device_dna
    ++ codes "\ntemperature:  "
    ++ units.celsius 3 b.temperature
    ++ codes " C\nVCCINT:       "
    ++ units.volts 4 b.vccint
    ++ codes " V\nVCCAUX:       "
    ++ units.volts 4 b.vccaux
    ++ codes " V\n"

module _ {S : Type 0} (host : Host S) (units : Units) where
  unfoldable pub run_action : BoardAction → Bool → BoardAccess S → M S ⊤
  run_action name json board = do product ← product_id board; say host (product ++ codes "\n")
  run_action version json board = do
    number ← image_version board
    say host (codes "0x" ++ filled 8 number ++ codes "\n")
  run_action dna json board = do
    serial ← value board.dna
    say host (codes "0x" ++ filled 16 serial ++ codes "\n")
  run_action temperature json board = do
    degrees ← temperature_sample board.xadc
    say host (units.celsius 3 degrees ++ codes " C\n")
  run_action voltages json board = do
    internal ← vccint_sample board.xadc
    auxiliary ← vccaux_sample board.xadc
    say host (
        codes "VCCINT: "
        ++ units.volts 4 internal
        ++ codes " V\nVCCAUX: "
        ++ units.volts 4 auxiliary
        ++ codes " V\n")
  run_action show json board = do
    b ← snapshot board
    say host (if json then snapshot_json units b else snapshot_text units b)

  -- `command.device.value_or(...)`
  abbrev pub device_of : BoardCommand → Text
  device_of command = elim command.device [
    | none ↦ codes "/dev/xdma" ++ to_string command.device_index ++ codes "_user"
    | some device ↦ device
  ]

  unfoldable pub run_board : ℕ → BoardCommand → M S ℕ
  run_board rounds command = with_user host rounds (device_of command) (λ registers. do
    board ← board_access registers command.layout
    run_action command.action command.json board
    pure 0)
