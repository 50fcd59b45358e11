-- ===== src/Pcie/Mrrs.antt =====
-- The maximum read request size: `setMrrs` of fpgactl/src/pcie.cpp.
pub mod Field
pub mod Written
use mrs_fpga_toolkit.Base.{
  ℕ, zero, suc, ◌+◌, ◌*◌, ◌/◌, ◌^◌, bit_and, bit_or, Bool, true, false, not, ltb, ◌==◌, ◌!=◌, ◌||◌,
  if◌then◌else◌, List, [], ◌∷◌, ◌++◌, Text, codes, to_string, Option, none, some,
}
use mrs_fpga_toolkit.Base.Int.{ℤ}
use mrs_fpga_toolkit.Machine.{
  M, ⊤, error, system_error, pure, throw, throw_if, given, when, ◌>>=◌, ◌>>◌,
}
use mrs_fpga_toolkit.Xdma.{Answer, done, failed, System, call, open_user}
use mrs_fpga_toolkit.Xdma.User.{little_bytes, little_value}
use mrs_fpga_toolkit.PcieConfig.{PcieControl, decode_pcie_control}
use mrs_fpga_toolkit.Common.{Host, say}
use mrs_fpga_toolkit.Pcie.Inspect.{endpoint_path, read_config}
use mrs_fpga_toolkit.Pcie.Report.{hex4}

-- `std::distance(valid.begin(), std::find(...))`, where the size is a valid one.
unfoldable pub encode_mrrs : ℕ → Option ℕ
encode_mrrs requested =
    if requested == 128
    then some 0
    else if requested == 256
    then some 1
    else if requested == 512
    then some 2
    else if requested == 1024
    then some 3
    else if requested == 2048
    then some 4
    else if requested == 4096
    then some 5
    else none

-- The new device control word: `~0x7000` in its sixteen bits.
abbrev pub with_mrrs : ℕ → ℕ → ℕ
with_mrrs device_control encoded = bit_or (bit_and device_control 0x8fff) (encoded * 2 ^ 12)

-- `count != 2`
abbrev pub is_short : Answer → Bool
is_short (done n) = n != 2
is_short (failed e) = true

-- `errno` after both calls.
abbrev last_error : Answer → Answer → ℕ
last_error written (failed e) = e
last_error (failed e) (done n) = e
last_error (done k) (done n) = 0

module _ {S : Type 0} (host : Host S) where
  abbrev opened_config : Answer → M S ℕ
  opened_config (done fd) = pure fd
  opened_config (failed e) =
      throw (system_error (codes "cannot open PCI configuration for writing: ") e)

  -- The word is written, read back and the file closed before either count is looked at.
  unfoldable pub exchange : ℕ → ℕ → ℕ → M S ℕ
  exchange fd offset updated = do
    written ← call (host.system.pwrite fd (little_bytes 2 updated) offset)
    got ← call (host.system.pread fd offset)
    call (λ s. (tt, host.system.close_file fd s))
    throw_if (is_short written || is_short got.answer) (
        system_error (codes "short PCI configuration write/readback: ")
          (last_error written got.answer))
    pure (little_value got.bytes)

  -- The end of `setMrrs`, after the word has been read back.
  unfoldable pub report_mrrs : Text → ℕ → ℕ → ℕ → ℕ → M S ⊤
  report_mrrs bdf requested before updated verified = do
    throw_if (bit_and verified 0x7000 != bit_and updated 0x7000)
        (error (codes "PCIe MRRS readback did not match the requested value"))
    say host (
        codes "PCIe MRRS updated: BDF="
        ++ bdf
        ++ codes " bytes="
        ++ to_string (128 * 2 ^ bit_and (verified / 2 ^ 12) 0x7)
        ++ codes " DeviceControl=0x"
        ++ hex4 before
        ++ codes "->0x"
        ++ hex4 verified
        ++ codes "\n")
    when (ltb 1024 requested)
        (say host (codes "warning: validate large MRRS values under sustained DMA load\n"))

  unfoldable pub update_mrrs : Text → ℕ → ℕ → M S ⊤
  update_mrrs bdf requested encoded = do
    path ← endpoint_path host bdf
    config ← read_config host (path ++ codes "/config")
    pcie ← decode_pcie_control config
    let updated = with_mrrs pcie.device_control encoded
    answer ← call (host.system.open_file (path ++ codes "/config") open_user)
    fd ← opened_config answer
    verified ← exchange fd (pcie.capability_offset + 8) updated
    report_mrrs bdf requested pcie.device_control updated verified

  unfoldable pub set_mrrs : Text → ℕ → M S ⊤
  set_mrrs bdf requested =
      given (encode_mrrs requested)
        (throw (error (codes "MRRS must be one of 128, 256, 512, 1024, 2048, or 4096")))
        (update_mrrs bdf requested)
