-- ===== src/Jtag/Run.antt =====
-- The commands of the JTAG family: `runJtag` of fpgactl/src/jtag.cpp. `celsius` and `detail` are the regular expressions for
-- the temperature and for a long report on the flash.
use mrs_fpga_toolkit.Base.{
  ℕ, ◌-◌, true, false, not, ltb, ◌==◌, ◌!=◌, ◌&&◌, ◌||◌, if◌then◌else◌, List, [], ◌∷◌, ◌++◌, Text,
  codes, to_string, Option, none,
}
use mrs_fpga_toolkit.Machine.{
  M, ⊤, error, pure, lift, throw, throw_if, choose, given, when, ◌>>=◌, ◌>>◌,
}
use mrs_fpga_toolkit.Xdma.{call}
use mrs_fpga_toolkit.BitImage.{validate_bit_image}
use mrs_fpga_toolkit.Common.{Host, say, require_root}
use mrs_fpga_toolkit.Common.Files.{command_exists, read_binary}
use mrs_fpga_toolkit.Common.Process.{run_process, sha256_file, is_zero, exit_text}
use mrs_fpga_toolkit.Pcie.{same_text}
use mrs_fpga_toolkit.Pcie.Find.{find_current_bdf, read_saved_bdf, remember_bdf}
use mrs_fpga_toolkit.Pcie.Run.{is_set}
use mrs_fpga_toolkit.Pcie.Lifecycle.{remove_for_reconfiguration, recover_after_reconfiguration}
use mrs_fpga_toolkit.Jtag.{
  JtagCommand, is_show, is_flash, is_direct, loader_base_command, reports_fail,
}
use mrs_fpga_toolkit.Jtag.Loader.{detect_target, report_temperature, detect_flash, infer_image_type}

-- The words that come after those of every call of the loader.
unfoldable pub program_words : JtagCommand → Text → Text → List Text
program_words options image image_type =
    codes "--file-type"
    ∷ image_type
    ∷ (if is_flash options.action
        then codes "--fpga-part"
          ∷ options.fpga_part
          ∷ codes "--offset"
          ∷ to_string options.offset
          ∷ codes "--write-flash"
          ∷ codes "--verify"
          ∷ image
          ∷ []
        else codes "--write-sram" ∷ image ∷ [])

module _ {S : Type 0} (host : Host S) (rounds : ℕ) (celsius detail : Text → Option Text)
    (options : JtagCommand) where
  -- The refusals before anything is done.
  unfoldable pub check_options : M S ⊤
  check_options = do
    throw_if (is_show options.action && options.reload)
        (error (codes "--reload is valid only with jtag program"))
    throw_if (is_flash options.action && not options.confirmed)
        (error (codes "refusing persistent flash programming without --yes"))
    throw_if (is_direct options.action && options.confirmed)
        (error (codes "--yes is only meaningful with --flash"))

  unfoldable pub run_show : M S ℕ
  run_show = do
    idcode ← detect_target host rounds options
    report_temperature host rounds options celsius
    say host (codes "physical USB-JTAG detection passed\n")
    pure 0

  abbrev describe : Text → Text → ℕ → M S ⊤
  describe image image_type image_size = do
    path ← call (host.absolute image)
    digest ← sha256_file host rounds image
    say host (
        codes "image:           "
        ++ path
        ++ codes "\nimage type:      "
        ++ image_type
        ++ codes "\nimage bytes:     "
        ++ to_string image_size
        ++ codes "\nimage SHA256:    "
        ++ digest
        ++ codes "\nJTAG cable:      "
        ++ options.cable
        ++ codes "\nJTAG frequency:  "
        ++ to_string options.frequency
        ++ codes " Hz\n")

  -- With `--reload`: the endpoint to come back to, taken off the bus if it is there.
  abbrev release : M S (Option Text)
  release = do
    found ← find_current_bdf host options.pcie true
    selected ← choose (is_set found) (pure found) (read_saved_bdf host options.pcie.device_index)
    there ←
        given selected (pure false)
          (λ bdf. call (host.exists (codes "/sys/bus/pci/devices/" ++ bdf)))
    given (if there then selected else none)
        (say host (codes "PCI endpoint is absent; recovery will discover it after programming\n"))
        (λ bdf. do
          say host (codes "removing live PCI endpoint before whole-device configuration\n")
          remove_for_reconfiguration host rounds bdf options.pcie)
    pure selected

  unfoldable pub check_room : ℕ → M S ⊤
  check_room image_size =
      choose (is_flash options.action)
        (do
          profile ← detect_flash host rounds options detail
          throw_if
              (ltb profile.capacity options.offset
                || ltb (profile.capacity - options.offset) image_size)
              (error (codes "image exceeds the detected flash capacity at the selected offset")))
        (throw_if (options.offset != 0) (error (codes "--offset is valid only with --flash")))

  -- A loader that reports a failure does not succeed, whatever its exit status.
  unfoldable pub program : Text → Text → M S ⊤
  program image image_type = do
    say host (
        if is_flash options.action
        then codes "programming and verifying board SPI flash through USB-JTAG\n"
        else codes "programming volatile FPGA SRAM through USB-JTAG\n")
    programmed ←
        run_process host rounds
          (loader_base_command options ++ program_words options image image_type) true
    throw_if (not (is_zero programmed.exit_code))
        (error (codes "JTAG programming failed with status " ++ exit_text programmed.exit_code))
    throw_if (reports_fail true programmed.output)
        (error (codes "JTAG loader reported FAIL despite exit status zero"))

  abbrev target_name : Text
  target_name = if is_flash options.action then codes "SPI flash" else codes "FPGA"

  abbrev finish : Option Text → M S ⊤
  finish selected =
      choose options.reload
        (do
          recovered ←
              recover_after_reconfiguration host rounds selected (is_set options.pcie.bdf)
                options.pcie
          remember_bdf host options.pcie.device_index recovered
          say host (target_name ++ codes " programmed and PCIe/XDMA recovered successfully\n"))
        (say host (target_name ++ codes " programmed successfully through USB-JTAG\n"))

  unfoldable pub run_program : Text → M S ℕ
  run_program image = do
    regular ← call (host.is_regular_file image)
    throw_if (not regular) (error (codes "image file does not exist: " ++ image))
    image_type ← infer_image_type host rounds options image options.file_type
    image_size ← call (host.file_size image)
    throw_if (image_size == 0) (error (codes "image file is empty"))
    when (same_text image_type (codes "bit"))
        (do raw ← read_binary host image; lift (validate_bit_image raw 0).0)
    idcode ← detect_target host rounds options
    report_temperature host rounds options celsius
    describe image image_type image_size
    selected ← choose options.reload release (pure none)
    check_room image_size
    program image image_type
    finish selected
    pure 0

  unfoldable pub run_jtag : M S ℕ
  run_jtag = do
    check_options
    found ← command_exists host options.loader
    throw_if (not found) (error (codes "required JTAG loader was not found: " ++ options.loader))
    require_root host
    choose (is_show options.action) run_show (
        given options.image (throw (error (codes "JTAG programming requires an image path")))
          run_program)
