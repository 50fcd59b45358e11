-- ===== src/Cli.antt =====
-- How fpgactl/src/cli.cpp turns the options of a command into its record: `optionOr`, `parseOptionalId`, `parseDeviceMode`,
-- `parsePcieOptions`, `parseBoardCommand`, `parseQspiBase`, `parseHwIcapOptions`, `parseJtagTarget`. The third-party parser
-- of a command is `Parser`, what it answers to the source's questions. `milliseconds value name` stands for
-- `parsePositiveSeconds` times 1000 without the fraction, which is in floating point.
pub mod Mode
mod Tests
use mrs_fpga_toolkit.Base.{
  ℕ, suc, ◌==◌, ◌!=◌, ◌&&◌, ◌||◌, Bool, true, false, ltb, if◌then◌else◌, List, [], ◌∷◌, length,
  Text, codes, Option, none, some,
}
use mrs_fpga_toolkit.Base.Int.{ℤ, pos}
use mrs_fpga_toolkit.Machine.{
  M, Outcome, ok, throws, hangs, error, pure, lift, choose, given, ◌>>=◌, ◌>>◌,
}
use mrs_fpga_toolkit.CommandText.{split_list, split_command_arguments}
use mrs_fpga_toolkit.Common.Numbers.{parse_unsigned, scan, skip_blanks, converted}
use mrs_fpga_toolkit.Pcie.{PcieOptions, same_text}
use mrs_fpga_toolkit.Board.{BoardAction, BoardCommand}
use mrs_fpga_toolkit.QspiTool.{QspiAction, QspiCommand}
use mrs_fpga_toolkit.Jtag.{JtagCommand}
use mrs_fpga_toolkit.Jtag

-- `present<std::string>`, `present<std::vector<std::string>>` and `get<bool>` of a leaf parser.
pub record Parser : Type 0 where
  pub present : Text → Option Text
  pub present_all : Text → Option (List Text)
  pub flag : Text → Bool

abbrev pub option_or : Parser → Text → Text → Text
option_or parser name fallback = elim (parser.present name) [ none ↦ fallback | some value ↦ value ]

-- `std::stoul(value, &consumed, 8)`: the number and `consumed`, or nothing where it throws.
unfoldable pub octal_part : ℕ × Text → Option (ℕ × ℕ)
octal_part (before, []) = none
octal_part (before, c ∷ rest) =
    if c == 45
    then converted true (suc before) (scan 8 0 0 rest)
    else if c == 43
    then converted false (suc before) (scan 8 0 0 rest)
    else converted false before (scan 8 0 0 (c ∷ rest))

unfoldable pub parse_optional_id : Option Text → Text → Outcome (Option ℕ)
parse_optional_id none name = ok none
parse_optional_id (some value) name =
    if length value == 0 || same_text value (codes "none")
    then ok none
    else elim (parse_unsigned value name 0xffff) [
      | ok id ↦ ok (some id)
      | throws e ↦ throws e
      | hangs ↦ hangs
    ]

abbrev pub in_mode_range : Text → ℕ × ℕ → Outcome (Option ℕ)
in_mode_range value (mode, consumed) =
    if consumed != length value || ltb 511 mode
    then throws (error (codes "device mode must be between 000 and 777"))
    else ok (some mode)

unfoldable pub parse_device_mode : Text → Outcome (Option ℕ)
parse_device_mode value =
    if same_text value (codes "preserve") || same_text value (codes "none")
    then ok none
    else elim (octal_part (skip_blanks 0 value)) [
      | none ↦ throws (error (codes "device mode must be octal or 'preserve'"))
      | some found ↦ in_mode_range value found
    ]

-- The initial values of `PcieOptions`.
abbrev initial_options : PcieOptions
initial_options = record {
  bdf = none;
  device_index = 0;
  vendor_id = some 0x10ee;
  device_id = none;
  module_name = codes "xdma";
  module_arguments = [];
  required_nodes = codes "control" ∷ [];
  timeout = 30000;
  device_mode = some 438;
  json = false;
  include_all = false;
}

abbrev is_disabled : Text → Bool
is_disabled expected =
    same_text expected (codes "none")
    || same_text expected (codes "off")
    || same_text expected (codes "disabled")

module _ {S : Type 0} (milliseconds : Text → Text → Outcome ℕ) (parser : Parser) where
  abbrev number : Text → Text → Text → ℕ → M S ℕ
  number option fallback name maximum =
      lift (parse_unsigned (option_or parser option fallback) name maximum)

  abbrev duration : Text → Text → Text → M S ℕ
  duration option fallback name = lift (milliseconds (option_or parser option fallback) name)

  unfoldable pub parse_pcie_options : Bool → Bool → M S PcieOptions
  parse_pcie_options include_json include_all = do
    device_index ← number (codes "--device-index") (codes "0") (codes "device index") 0x7fffffff
    vendor_id ← lift (
        parse_optional_id (some (option_or parser (codes "--vendor-id") (codes "0x10ee")))
          (codes "vendor ID"))
    device_id ← lift (parse_optional_id (parser.present (codes "--device-id")) (codes "device ID"))
    module_arguments ← lift (split_command_arguments (option_or parser (codes "--module-args") []))
    timeout ← duration (codes "--wait") (codes "30") (codes "wait timeout")
    device_mode ← lift (parse_device_mode (option_or parser (codes "--device-mode") (codes "666")))
    pure record {
      bdf = parser.present (codes "--bdf");
      device_index = device_index;
      vendor_id = vendor_id;
      device_id = device_id;
      module_name = option_or parser (codes "--module") (codes "xdma");
      module_arguments = module_arguments;
      required_nodes = split_list (option_or parser (codes "--required-nodes") (codes "control"));
      timeout = timeout;
      device_mode = device_mode;
      json = include_json && parser.flag (codes "--json");
      include_all = include_all && parser.flag (codes "--all");
    }

  unfoldable pub parse_board_command : BoardAction → Bool → M S BoardCommand
  parse_board_command action include_json = do
    device_index ← number (codes "--device-index") (codes "0") (codes "device index") 0x7fffffff
    gpio_base ← number (codes "--gpio-base") (codes "0x0") (codes "GPIO base") 0xffffffff
    dna_base ← number (codes "--dna-base") (codes "0x1000") (codes "Device DNA base") 0xffffffff
    xadc_base ← number (codes "--xadc-base") (codes "0x3000") (codes "XADC base") 0xffffffff
    pure record {
      action = action;
      device = parser.present (codes "--device");
      device_index = device_index;
      layout = record { gpio_base = gpio_base; dna_base = dna_base; xadc_base = xadc_base };
      json = include_json && parser.flag (codes "--json");
    }

  unfoldable pub parse_qspi_base : QspiAction → M S QspiCommand
  parse_qspi_base action = do
    qspi_base ← number (codes "--qspi-base") (codes "0x10000") (codes "QSPI base") 0xffffffff
    spi_timeout ← duration (codes "--spi-timeout") (codes "1") (codes "SPI timeout")
    pcie ← parse_pcie_options false false
    pure record {
      action = action;
      operand = none;
      device = parser.present (codes "--device");
      qspi_base = qspi_base;
      spi_timeout = pos spi_timeout;
      hwicap_base = 0x30000;
      hwicap_timeout = pos 1000;
      hwicap_vacancy = 63;
      offset = 0;
      length = none;
      boot_address = none;
      expected_part = none;
      confirmed = false;
      rewrite_all = false;
      force = false;
      json = false;
      reload_after = false;
      pcie = pcie;
    }

  -- `if (const auto value = parser.present(option))`
  abbrev optional_number : Text → Text → ℕ → M S (Option ℕ)
  optional_number option name maximum =
      given (parser.present option) (pure none)
        (λ value. do found ← lift (parse_unsigned value name maximum); pure (some found))

  unfoldable pub parse_hwicap_options : QspiCommand → M S QspiCommand
  parse_hwicap_options result = do
    base ← number (codes "--hwicap-base") (codes "0x30000") (codes "HWICAP base") 0xffffffff
    timeout ← duration (codes "--hwicap-timeout") (codes "1") (codes "HWICAP timeout")
    vacancy ← number (codes "--hwicap-vacancy") (codes "63") (codes "HWICAP vacancy") 0xffffffff
    address ← optional_number (codes "--boot-address") (codes "boot address") 0xffffffff
    pure record result {
      hwicap_base = base;
      hwicap_timeout = pos timeout;
      hwicap_vacancy = vacancy;
      boot_address = elim address [ none ↦ result.boot_address | some a ↦ some a ];
    }

  abbrev expected_code : Text → M S (Option ℕ)
  expected_code expected = choose (is_disabled expected) (pure none) (do
    code ← lift (parse_unsigned expected (codes "expected IDCODE") 0xffffffff)
    pure (some code))

  unfoldable pub parse_jtag_target : M S JtagCommand
  parse_jtag_target = do
    frequency ← number (codes "--frequency") (codes "15000000") (codes "JTAG frequency") 0xffffffff
    code ← expected_code (option_or parser (codes "--expected-idcode") (codes "0x03636093"))
    mask ← number (codes "--idcode-mask") (codes "0x0fffffff") (codes "IDCODE mask") 0xffffffff
    pure record {
      action = Jtag.show;
      image = none;
      loader = option_or parser (codes "--loader") (codes "openFPGALoader");
      cable = option_or parser (codes "--cable") (codes "digilent_hs2");
      frequency = frequency;
      serial = parser.present (codes "--serial");
      loader_arguments = elim (parser.present_all (codes "--loader-arg")) [
        | none ↦ []
        | some values ↦ values
      ];
      file_type = none;
      offset = 0;
      fpga_part = codes "xc7a200tfbg484";
      expected_idcode = code;
      idcode_mask = mask;
      confirmed = false;
      reload = false;
      pcie = initial_options;
    }
