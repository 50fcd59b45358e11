-- ===== src/QspiTool/Report.antt =====
-- What fpgactl/src/qspi.cpp prints of a flash and of bytes: `hashBytes`, `formatJedec`, `displayFlash`.
use mrs_fpga_toolkit.Base.{
  ℕ, zero, suc, ◌-◌, ◌/◌, Bool, ◌==◌, if◌then◌else◌, List, [], ◌∷◌, ◌++◌, length, drop, replicate,
  Text, codes, to_string, to_hex, Option, none, some,
}
use mrs_fpga_toolkit.Base.Bits.{any_bit}
use mrs_fpga_toolkit.Machine.{M, ⊤, error, pure, throw, choose, hang, on_throw, ◌>>=◌, ◌>>◌}
use mrs_fpga_toolkit.Xdma.{Answer, done, failed, call, eintr}
use mrs_fpga_toolkit.SpiNor.{Nor, SpiNor, Profile, spansion, micron, profile_of, read_status}
use mrs_fpga_toolkit.SpiNor.Recovery.{is_micron, read_micron_nvcr, micron_boot_safe, current_id}
use mrs_fpga_toolkit.Common.{Host, say}
use mrs_fpga_toolkit.Common.Process.{sha256_file}
use mrs_fpga_toolkit.Pcie.Report.{hex4}
use mrs_fpga_toolkit.QspiTool.{outside}

abbrev pub hex2 : ℕ → Text
hex2 n = replicate (2 - length (to_hex n)) 48 ++ to_hex n

unfoldable pub format_jedec : List ℕ → Text
format_jedec [] = []
format_jedec (b ∷ []) = hex2 b
format_jedec (b ∷ c ∷ rest) = hex2 b ++ codes " " ++ format_jedec (c ∷ rest)

-- The field `name` of a profile.
abbrev pub profile_name : Profile → Text
profile_name spansion = codes "Spansion/Cypress S25FL256S"
profile_name micron = codes "Micron MT25QL512"

abbrev truth : Bool → Text
truth b = if b then codes "true" else codes "false"

abbrev nvcr_json : Option ℕ → Text
nvcr_json none = []
nvcr_json (some nvcr) =
    codes ",\n  \"nvcr\": "
    ++ to_string nvcr
    ++ codes ",\n  \"boot_mode_safe\": "
    ++ truth (micron_boot_safe nvcr)

abbrev nvcr_text : Option ℕ → Text
nvcr_text none = []
nvcr_text (some nvcr) =
    codes "Micron NVCR:     0x"
    ++ hex4 nvcr
    ++ codes "\ncold-boot mode:  "
    ++ (if micron_boot_safe nvcr then codes "safe" else codes "unsafe; use repair --yes")
    ++ codes "\n"

module _ {S : Type 0} (host : Host S) where
  -- One `write` per round; the loop repeats it while it is interrupted or took a part.
  unfoldable pub write_hash_input : ℕ → ℕ → Text → List ℕ → M S ⊤
  write_hash_input zero fd name bytes = hang
  write_hash_input (suc rounds) fd name bytes = choose (length bytes == 0) (pure tt) (do
    answer ← call (host.system.write_file fd bytes)
    elim answer [
      | done n ↦ choose (n == 0) refused (write_hash_input rounds fd name (drop n bytes))
      | failed e ↦ choose (e == eintr) (write_hash_input rounds fd name bytes) refused
    ])
    where
      refused : M S ⊤
      refused = do
        call (λ s. (tt, host.system.close_file fd s))
        call (host.unlink name)
        throw (error (codes "cannot write temporary hash input"))

  abbrev hash_file : ℕ → Text → List ℕ → Answer → M S Text
  hash_file rounds name bytes (failed e) =
      throw (error (codes "cannot create temporary hash input"))
  hash_file rounds name bytes (done fd) = do
    write_hash_input rounds fd name bytes
    call (λ s. (tt, host.system.close_file fd s))
    digest ← on_throw (sha256_file host rounds name) (call (host.unlink name))
    call (host.unlink name)
    pure digest

  unfoldable pub hash_bytes : ℕ → List ℕ → M S Text
  hash_bytes rounds bytes = do
    made ← call (host.make_file (codes "mrs-fpgactl-hash"))
    hash_file rounds made.name bytes made.answer

  unfoldable pub display_flash : SpiNor S → Bool → M (Nor S) ⊤
  display_flash flash json = do
    status ← read_status flash
    nvcr ←
        choose (is_micron flash.profile) (do value ← read_micron_nvcr flash; pure (some value))
          (pure none)
    id ← current_id flash.spi
    let protect = any_bit status (profile_of flash).protect_mask
    choose json
        (outside (
          say host (
            codes "{\n  \"jedec_id\": \""
            ++ format_jedec id
            ++ codes "\",\n  \"profile\": \""
            ++ profile_name flash.profile
            ++ codes "\",\n  \"physical_capacity\": "
            ++ to_string (profile_of flash).physical_capacity
            ++ codes ",\n  \"accessible_capacity\": "
            ++ to_string flash.capacity
            ++ codes ",\n  \"erase_size\": "
            ++ to_string (profile_of flash).erase_size
            ++ codes ",\n  \"page_size\": "
            ++ to_string (profile_of flash).page_size
            ++ codes ",\n  \"status\": "
            ++ to_string status
            ++ codes ",\n  \"block_protected\": "
            ++ truth protect
            ++ nvcr_json nvcr
            ++ codes "\n}\n")))
        (outside (
          say host (
            codes "JEDEC ID:        "
            ++ format_jedec id
            ++ codes "\nflash:           "
            ++ profile_name flash.profile
            ++ codes "\nphysical size:   "
            ++ to_string ((profile_of flash).physical_capacity / 1048576)
            ++ codes " MiB\naccessible size: "
            ++ to_string (flash.capacity / 1048576)
            ++ codes " MiB\nerase block:     "
            ++ to_string ((profile_of flash).erase_size / 1024)
            ++ codes " KiB\nprogram page:    "
            ++ to_string (profile_of flash).page_size
            ++ codes " bytes\nstatus:          0x"
            ++ hex2 status
            ++ codes "\nwrite protect:   "
            ++ (if protect then codes "enabled" else codes "clear")
            ++ codes "\n"
            ++ nvcr_text nvcr)))
