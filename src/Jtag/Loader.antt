-- ===== src/Jtag/Loader.antt =====
-- The runs of the loader that fpgactl/src/jtag.cpp makes before it programs: detection of the target, of the temperature and of
-- the flash, and the type of the image.
use mrs_fpga_toolkit.Base.{
  ℕ, ◌-◌, ◌*◌, ◌/◌, bit_and, true, false, not, ◌!=◌, if◌then◌else◌, [], ◌∷◌, ◌++◌, length,
  replicate, map, Text, codes, to_string, to_hex, Option, none, some,
}
use mrs_fpga_toolkit.Machine.{
  M, ⊤, error, pure, lift, throw, throw_if, choose, given, on_throw, ◌>>=◌, ◌>>◌,
}
use mrs_fpga_toolkit.Xdma.{call}
use mrs_fpga_toolkit.Common.{Host, say}
use mrs_fpga_toolkit.Common.Numbers.{parse_unsigned}
use mrs_fpga_toolkit.Common.Process.{run_process, is_zero, exit_text}
use mrs_fpga_toolkit.Pcie.{same_text, to_lower}
use mrs_fpga_toolkit.Jtag.{
  JtagCommand, JtagFlashProfile, loader_base_command, find_idcode, parse_jedec, extension,
}

-- `setw(8) << setfill('0') << hex`
abbrev pub hex8 : ℕ → Text
hex8 n = replicate (8 - length (to_hex n)) 48 ++ to_hex n

abbrev pub nite_fury : JtagFlashProfile
nite_fury = record {
  board = codes "NiteFury";
  model = codes "Spansion/Cypress S25FL256S";
  capacity = 32 * 1024 * 1024;
}

abbrev pub aller : JtagFlashProfile
aller = record {
  board = codes "Aller";
  model = codes "Micron MT25QL512";
  capacity = 64 * 1024 * 1024;
}

unfoldable pub profile_of_jedec : Text → Option JtagFlashProfile
profile_of_jedec jedec =
    if same_text jedec (codes "01 02 19")
    then some nite_fury
    else if same_text jedec (codes "20 ba 20")
    then some aller
    else none

module _ {S : Type 0} (host : Host S) (rounds : ℕ) (options : JtagCommand) where
  abbrev pub check_idcode : ℕ → M S ⊤
  check_idcode idcode =
      given options.expected_idcode (say host (codes "IDCODE check:    disabled\n")) (λ expected. do
        throw_if (bit_and idcode options.idcode_mask != bit_and expected options.idcode_mask)
            (error (codes "detected IDCODE does not match the expected target"))
        say host
            (codes "IDCODE check:    passed (mask 0x" ++ to_hex options.idcode_mask ++ codes ")\n"))

  unfoldable pub detect_target : M S ℕ
  detect_target = do
    result ← run_process host rounds (loader_base_command options ++ codes "--detect" ∷ []) true
    throw_if (not (is_zero result.exit_code)) (
        error
          (codes "physical USB-JTAG detection failed with status " ++ exit_text result.exit_code))
    text ←
        given (find_idcode true result.output)
          (throw (error (codes "JTAG detection did not report an IDCODE"))) pure
    idcode ← lift (parse_unsigned text (codes "detected IDCODE") 0xffffffff)
    say host (codes "detected IDCODE: 0x" ++ hex8 idcode ++ codes "\n")
    check_idcode idcode
    pure idcode

  -- `celsius` finds the temperature in the loader's answer, and prints it with three decimals.
  unfoldable pub report_temperature : (Text → Option Text) → M S ⊤
  report_temperature celsius = do
    result ← run_process host rounds (loader_base_command options ++ codes "--read_xadc" ∷ []) false
    given (if is_zero result.exit_code then celsius result.output else none)
        (call (host.print_error (codes "warning: XADC temperature was unavailable through JTAG\n")))
        (λ temperature. say host (codes "XADC temperature: " ++ temperature ++ codes " C\n"))

  -- The probe itself, in a temporary directory that is there.
  unfoldable pub probe_flash : (Text → Option Text) → Text → M S JtagFlashProfile
  probe_flash detail directory = do
    result ←
        run_process host rounds
          (loader_base_command options
            ++ codes "--fpga-part"
              ∷ options.fpga_part
              ∷ codes "--offset"
              ∷ codes "0"
              ∷ codes "--dump-flash"
              ∷ codes "--file-size"
              ∷ codes "1"
              ∷ (directory ++ codes "/probe.bin")
              ∷ [])
          true
    throw_if (not (is_zero result.exit_code)) (
        error (
          codes "read-only SPI-over-JTAG flash detection failed with status "
          ++ exit_text result.exit_code))
    jedec ←
        given (parse_jedec detail result.output)
          (throw (error (codes "SPI-over-JTAG probe did not report a usable JEDEC ID"))) pure
    profile ←
        given (profile_of_jedec jedec)
          (throw (error (codes "unsupported board flash JEDEC ID " ++ jedec))) pure
    say host (
        codes "flash JEDEC ID:   "
        ++ jedec
        ++ codes "\nflash:            "
        ++ profile.model
        ++ codes "\nboard profile:    "
        ++ profile.board
        ++ codes "\nflash capacity:   "
        ++ to_string (profile.capacity / (1024 * 1024))
        ++ codes " MiB\n")
    pure profile

  -- The directory is removed on every way out.
  unfoldable pub detect_flash : (Text → Option Text) → M S JtagFlashProfile
  detect_flash detail = do
    made ← call (host.make_temporary (codes "mrs-fpgactl-jtag"))
    given made (throw (error (codes "cannot create temporary JTAG directory"))) (λ directory. do
      profile ← on_throw (probe_flash detail directory) (call (host.remove_all directory))
      call (host.remove_all directory)
      pure profile)

  unfoldable pub infer_image_type : Text → Option Text → M S Text
  infer_image_type image override =
      given override
        (do
          let suffix = map to_lower (extension image)
          choose (same_text suffix (codes ".bit")) (pure (codes "bit")) (
              choose (same_text suffix (codes ".bin")) (pure (codes "bin")) (
                throw (
                  error
                    (codes "cannot infer image type; use --file-type bit or --file-type bin")))))
        pure
