-- ===== src/QspiTool/Run.antt =====
-- The commands of the QSPI family: `runQspi` of fpgactl/src/qspi.cpp. What is measured in time is not printed.
use mrs_fpga_toolkit.Base.{
  ℕ, ◌+◌, ◌-◌, ◌%◌, ◌^◌, Bool, true, false, not, ltb, ◌&&◌, List, [], ◌++◌, length, replicate, Text,
  codes, to_string, to_hex, Option, none, some,
}
use mrs_fpga_toolkit.Machine.{M, ⊤, error, pure, throw, throw_if, choose, given, when, ◌>>=◌, ◌>>◌}
use mrs_fpga_toolkit.Xdma.{call}
use mrs_fpga_toolkit.BitImage.{Image, load_image, find_tag}
use mrs_fpga_toolkit.SpiNor.{Nor, SpiNor, check_range}
use mrs_fpga_toolkit.SpiNor.Blocks
use mrs_fpga_toolkit.SpiNor.Recovery.{repair_micron_boot_mode}
use mrs_fpga_toolkit.QspiProgram.{same_bytes, mismatch, program_and_verify}
use mrs_fpga_toolkit.Common.{Host, say, require_root}
use mrs_fpga_toolkit.Common.Files.{read_binary, write_binary}
use mrs_fpga_toolkit.Jtag.{extension}
use mrs_fpga_toolkit.QspiTool.{
  QspiAction, QspiCommand, show, read, verify, program, repair, reload, with_flash, outside,
}
use mrs_fpga_toolkit.QspiTool.Report.{hash_bytes, display_flash}
use mrs_fpga_toolkit.QspiTool.Reload.{reload_from_flash}

abbrev pub is_persistent : QspiAction → Bool
is_persistent show = false
is_persistent read = false
is_persistent verify = false
is_persistent program = true
is_persistent repair = true
is_persistent reload = true

-- `setw(12) << left` of a name and `:`
abbrev padded : Text → Text
padded name = name ++ replicate (12 - length name) 32

abbrev metadata_line : Text → Option Text → Text
metadata_line name none = []
metadata_line name (some value) = codes "bit " ++ padded (name ++ codes ":") ++ value ++ codes "\n"

-- The fields of a header in the order of their names, as a `std::map` has them.
unfoldable pub metadata_text : List (ℕ × Text) → Text
metadata_text fields =
    metadata_line (codes "date") (find_tag 99 fields)
    ++ metadata_line (codes "design") (find_tag 97 fields)
    ++ metadata_line (codes "part") (find_tag 98 fields)
    ++ metadata_line (codes "time") (find_tag 100 fields)

module _ {S : Type 0} (host : Host S) (rounds : ℕ) (options : QspiCommand) where
  -- The image of a command that needs one.
  unfoldable pub open_image : M S Image
  open_image = do
    path ←
        given options.operand (throw (error (codes "the selected QSPI action requires an image")))
          pure
    raw ← read_binary host path
    image ← load_image (extension path) raw options.expected_part
    full ← call (host.absolute path)
    digest ← hash_bytes host rounds image.bytes
    say host (
        codes "image:           "
        ++ full
        ++ codes "\nimage bytes:     "
        ++ to_string (length image.bytes)
        ++ codes "\nimage SHA256:    "
        ++ digest
        ++ codes "\n")
    say host (metadata_text image.metadata)
    pure image

  unfoldable pub run_repair : SpiNor S → M (Nor S) ⊤
  run_repair flash = do
    values ← repair_micron_boot_mode flash
    outside (
        say host (
          codes "Micron NVCR: 0x"
          ++ to_hex values.0
          ++ codes " -> 0x"
          ++ to_hex values.1
          ++ codes "\n"))

  unfoldable pub run_read : SpiNor S → M (Nor S) ⊤
  run_read flash = do
    path ← given options.operand (throw (error (codes "qspi read requires an output file"))) pure
    check_range flash options.offset 0
    let size : ℕ = elim options.length [ none ↦ flash.capacity - options.offset | some n ↦ n ]
    bytes ← Blocks.read flash options.offset size
    outside (write_binary host path bytes options.force)
    full ← outside (call (host.absolute path))
    digest ← outside (hash_bytes host rounds bytes)
    outside (
        say host (
          codes "read file:       "
          ++ full
          ++ codes "\nread bytes:      "
          ++ to_string (length bytes)
          ++ codes "\nread SHA256:     "
          ++ digest
          ++ codes "\n"))

  unfoldable pub run_verify : SpiNor S → List ℕ → M (Nor S) ⊤
  run_verify flash image = do
    actual ← Blocks.read flash options.offset (length image)
    throw_if (not (same_bytes actual image)) (
        error (
          codes "flash validation failed at offset "
          ++ to_string (options.offset + mismatch actual image)))
    digest ← outside (hash_bytes host rounds actual)
    outside (
        say host (
          codes "validated bytes:  "
          ++ to_string (length actual)
          ++ codes "\nvalidated SHA256: "
          ++ digest
          ++ codes "\nflash validation passed\n"))

  -- The body of the command while the flash is open; whether it goes on after that.
  unfoldable pub run_action : QspiAction → List ℕ → SpiNor S → M (Nor S) Bool
  run_action show image flash = pure false
  run_action repair image flash = do run_repair flash; pure false
  run_action read image flash = do run_read flash; pure false
  run_action verify image flash = do run_verify flash image; pure false
  run_action program image flash = do
    program_and_verify flash image options.offset options.rewrite_all
    pure true
  run_action reload image flash = throw (error (codes "unsupported QSPI action"))

  unfoldable pub finish_program : M S ⊤
  finish_program = do
    say host (codes "QSPI erase/program and final verification completed successfully\n")
    choose options.reload_after
        (do
          let unset : Bool = elim options.boot_address [ none ↦ true | some address ↦ false ]
          throw_if (unset && ltb 0xffffffff options.offset)
              (error (codes "image offset cannot be represented as a boot address"))
          reload_from_flash host rounds record options {
            boot_address = some (elim options.boot_address [
              | none ↦ options.offset % 2 ^ 32
              | some address ↦ address
            ]);
          })
        (say host (codes "the running FPGA image is unchanged; add --reload to boot it\n"))

  abbrev needs_image : QspiAction → Bool
  needs_image verify = true
  needs_image program = true
  needs_image _ = false

  unfoldable pub run_flash_action : M S ℕ
  run_flash_action = do
    bytes ← choose (needs_image options.action) (do image ← open_image; pure image.bytes) (pure [])
    goes_on ←
        with_flash host rounds options
          (λ flash. do display_flash host flash options.json; run_action options.action bytes flash)
    when goes_on finish_program
    pure 0

  abbrev is_reload : QspiAction → Bool
  is_reload reload = true
  is_reload _ = false

  unfoldable pub run_qspi : M S ℕ
  run_qspi = do
    throw_if (is_persistent options.action && not options.confirmed)
        (error (codes "refusing the requested persistent operation without --yes"))
    require_root host
    choose (is_reload options.action) (do reload_from_flash host rounds options; pure 0)
        run_flash_action
