-- ===== src/QspiTool/Reload.antt =====
-- The warm boot of fpgactl/src/qspi.cpp: `reloadFromFlash`.
use mrs_fpga_toolkit.Base.{
  ℕ, ◌%◌, ◌^◌, Bool, true, false, not, ltb, ◌&&◌, [], ◌++◌, Text, codes, Option, none, some,
}
use mrs_fpga_toolkit.Machine.{M, ⊤, error, pure, throw_if, choose, ◌>>=◌, ◌>>◌}
use mrs_fpga_toolkit.Xdma.{call}
use mrs_fpga_toolkit.AxiHwIcap
use mrs_fpga_toolkit.Common.{Host, say}
use mrs_fpga_toolkit.Pcie.Find.{find_current_bdf, read_saved_bdf, remember_bdf}
use mrs_fpga_toolkit.Pcie.Report.{value_or}
use mrs_fpga_toolkit.Pcie.Run.{is_set}
use mrs_fpga_toolkit.Pcie.Lifecycle.{recover_after_reconfiguration, reload_after_iprog}
use mrs_fpga_toolkit.Jtag.Loader.{hex8}
use mrs_fpga_toolkit.QspiTool.{QspiCommand, device_of, with_user}

abbrev pub boot_address_of : QspiCommand → ℕ
boot_address_of o = elim o.boot_address [ none ↦ o.offset % 2 ^ 32 | some address ↦ address ]

module _ {S : Type 0} (host : Host S) (rounds : ℕ) (options : QspiCommand) where
  abbrev recover_if : Bool → Option Text → M S (Option Text)
  recover_if false bdf = pure bdf
  recover_if true bdf = do
    recovered ← recover_after_reconfiguration host rounds bdf (is_set options.pcie.bdf) options.pcie
    pure (some recovered)

  unfoldable pub issue_iprog : ℕ → M S ⊤
  issue_iprog boot_address = with_user host rounds (device_of options) (λ registers. do
    icap ←
        AxiHwIcap.axi_hw_icap registers options.hwicap_base options.hwicap_timeout
          options.hwicap_vacancy
    AxiHwIcap.validate icap
    AxiHwIcap.trigger_iprog icap boot_address)

  unfoldable pub reload_from_flash : M S ⊤
  reload_from_flash = do
    throw_if (not options.confirmed) (error (codes "refusing whole-FPGA reload without --yes"))
    found ← find_current_bdf host options.pcie true
    hint ← choose (is_set found) (pure found) (read_saved_bdf host options.pcie.device_index)
    usable ← choose (is_set hint) (call (host.exists (device_of options))) (pure false)
    bdf ← recover_if (not usable) hint
    ready ← call (host.exists (device_of options))
    throw_if (not ready) (error (codes "XDMA recovery did not create the selected user BAR device"))
    remember_bdf host options.pcie.device_index (value_or bdf [])
    throw_if (not (is_set options.boot_address) && ltb 0xffffffff options.offset)
        (error (codes "flash offset cannot be represented as a HWICAP boot address"))
    say host (
        codes "issuing IPROG from flash address 0x" ++ hex8 (boot_address_of options) ++ codes "\n")
    issue_iprog (boot_address_of options)
    reload_after_iprog host rounds (value_or bdf []) options.pcie
    say host (codes "FPGA reloaded from persistent flash and PCIe/XDMA recovered\n")
