-- ===== src/Pcie/Lifecycle.antt =====
-- The XDMA driver and its endpoint in fpgactl/src/pcie.cpp: loading, binding, removal, and rescans.
-- A loop is given `rounds`; in the source its deadline ends it.
use mrs_fpga_toolkit.Base.{
  ℕ, zero, suc, ◌+◌, ◌*◌, Bool, true, false, not, leb, ◌&&◌, List, [], ◌∷◌, ◌++◌, Text, codes,
  Option, none, some,
}
use mrs_fpga_toolkit.Machine.{
  M, ⊤, error, system_error, pure, lift, throw, throw_if, choose, given, when, hang, ◌>>=◌, ◌>>◌,
}
use mrs_fpga_toolkit.Xdma.{Answer, done, failed, call}
use mrs_fpga_toolkit.Common.{Host, say, wait_until}
use mrs_fpga_toolkit.Common.Files.{resolved_name}
use mrs_fpga_toolkit.Common.Process.{run_checked}
use mrs_fpga_toolkit.Pcie.{PcieOptions, sysfs_pci, same_text, normalize_bdf, node_prefix}
use mrs_fpga_toolkit.Pcie.Inspect.{endpoint_path, endpoint_details, xdma_nodes}
use mrs_fpga_toolkit.Pcie.Report.{spaced}
use mrs_fpga_toolkit.Pcie.Find.{find_current_bdf, remember_bdf}

abbrev pub rescan : Text
rescan = sysfs_pci ++ codes "/rescan"

module _ {S : Type 0} (host : Host S) (rounds : ℕ) where
  unfoldable pub write_one : Text → M S ⊤
  write_one path = do
    result ← call (host.write_all path (codes "1\n"))
    throw_if (not (result.opened && result.written))
        (error (codes "cannot write sysfs control: " ++ path))

  unfoldable pub unload_module : Text → M S ⊤
  unload_module name = do
    loaded ← call (host.is_directory (codes "/sys/module/" ++ name))
    when loaded (do
      say host (codes "unloading " ++ name ++ codes "\n")
      run_checked host rounds (codes "modprobe" ∷ codes "-r" ∷ name ∷ []))

  unfoldable pub load_module : PcieOptions → M S ⊤
  load_module options = do
    say host (codes "loading " ++ options.module_name ++ codes "\n")
    run_checked host rounds (codes "modprobe" ∷ options.module_name ∷ options.module_arguments)

  unfoldable pub wait_nodes : PcieOptions → List Text → M S ⊤
  wait_nodes options [] = pure tt
  wait_nodes options (suffix ∷ rest) = do
    let node = codes "/dev/" ++ node_prefix options.device_index ++ suffix
    wait_until host rounds (call (host.exists node)) options.timeout node 200
    wait_nodes options rest

  abbrev pub mode_set : Text → Answer → M S ⊤
  mode_set node (done n) = pure tt
  mode_set node (failed e) = throw (system_error (codes "cannot set device mode on " ++ node) e)

  unfoldable pub set_modes : ℕ → List Text → M S ⊤
  set_modes mode [] = pure tt
  set_modes mode (node ∷ rest) = do
    answer ← call (host.chmod node mode)
    mode_set node answer
    set_modes mode rest

  abbrev is_expected : Option Text → Text → Bool
  is_expected none name = false
  is_expected (some driver) name = same_text driver name

  unfoldable pub finish_binding : Text → PcieOptions → M S ⊤
  finish_binding bdf options = do
    path ← endpoint_path host bdf
    wait_until host rounds (call (host.exists (path ++ codes "/driver"))) options.timeout
        (codes "driver binding at " ++ bdf) 200
    driver ← resolved_name host (path ++ codes "/driver")
    throw_if (not (is_expected driver options.module_name))
        (error (codes "endpoint is not bound to expected driver " ++ options.module_name))
    wait_nodes options options.required_nodes
    given options.device_mode (pure tt)
        (λ mode. do found ← xdma_nodes host options.device_index; set_modes mode found)
    remember_bdf host options.device_index bdf
    details ← endpoint_details host bdf
    say host (
        codes "ready: "
        ++ bdf
        ++ codes ", link "
        ++ details.current_link_speed
        ++ codes " x"
        ++ details.current_link_width
        ++ codes "\n")
    nodes ← xdma_nodes host options.device_index
    say host (codes "nodes:" ++ spaced nodes ++ codes "\n")

  -- The part of `reenumerateKnown` that takes the endpoint off the bus.
  unfoldable pub remove_endpoint : Text → Text → PcieOptions → Bool → M S ⊤
  remove_endpoint bdf endpoint options may_be_absent = do
    unload_module options.module_name
    removable ← call (host.exists (endpoint ++ codes "/remove"))
    choose removable
        (do
          say host (codes "removing endpoint " ++ bdf ++ codes "\n")
          write_one (endpoint ++ codes "/remove")
          wait_until host rounds (do there ← call (host.exists endpoint); pure (not there))
              options.timeout (codes "removal of " ++ bdf) 200)
        (choose (not may_be_absent) (throw (error (codes "endpoint cannot be removed: " ++ bdf)))
          (say host (codes "endpoint is already absent after FPGA reconfiguration\n")))

  unfoldable pub rescan_loop : ℕ → Text → Text → ℕ → M S ⊤
  rescan_loop zero bdf endpoint deadline = hang
  rescan_loop (suc left) bdf endpoint deadline = do
    present ← call (host.exists endpoint)
    choose present (pure tt) (do
      write_one rescan
      now ← call host.now
      throw_if (leb deadline now)
          (error (codes "timeout waiting for " ++ bdf ++ codes " after PCIe rescan"))
      call (host.sleep_for 500000000)
      rescan_loop left bdf endpoint deadline)

  -- The part of `reenumerateKnown` that brings the endpoint back.
  unfoldable pub rediscover : Text → Text → PcieOptions → M S ⊤
  rediscover bdf endpoint options = do
    say host (codes "rescanning PCIe\n")
    now ← call host.now
    rescan_loop rounds bdf endpoint (now + options.timeout * 1000000)
    load_module options
    finish_binding bdf options

  unfoldable pub reenumerate_known : Text → PcieOptions → Bool → Bool → Bool → M S ⊤
  reenumerate_known bdf options may_be_absent remove_only probe_only = do
    endpoint ← endpoint_path host bdf
    when (not probe_only) (remove_endpoint bdf endpoint options may_be_absent)
    choose remove_only (say host (codes "endpoint removed; program the FPGA before rescanning\n"))
        (rediscover bdf endpoint options)

  unfoldable pub remove_for_reconfiguration : Text → PcieOptions → M S ⊤
  remove_for_reconfiguration bdf options = do
    remember_bdf host options.device_index bdf
    reenumerate_known bdf options false true false

  unfoldable pub reload_after_iprog : Text → PcieOptions → M S ⊤
  reload_after_iprog bdf options = reenumerate_known bdf options true false false

  -- `preferred_bdf.has_value() && exists(endpointPath(*preferred_bdf))`
  unfoldable pub is_visible : Option Text → M S Bool
  is_visible none = pure false
  is_visible (some bdf) = do path ← endpoint_path host bdf; call (host.exists path)

  abbrev keep_if : Bool → Option Text → Option Text
  keep_if true bdf = bdf
  keep_if false bdf = none

  abbrev normalized : Option Text → M S (Option Text)
  normalized none = pure none
  normalized (some bdf) = do result ← lift (normalize_bdf bdf); pure (some result)

  -- What one turn of the recovery finds.
  unfoldable pub look : Option Text → Bool → PcieOptions → M S (Option Text)
  look preferred strict options = do
    there ← is_visible preferred
    choose there (normalized preferred) (
        choose strict (pure none) (do
          found ← find_current_bdf host options true
          visible ← is_visible found
          pure (keep_if visible found)))

  unfoldable pub recovery_loop : ℕ → Option Text → Bool → PcieOptions → ℕ → M S Text
  recovery_loop zero preferred strict options deadline = hang
  recovery_loop (suc left) preferred strict options deadline = do
    write_one rescan
    discovered ← look preferred strict options
    given discovered
        (do
          now ← call host.now
          throw_if (leb deadline now)
              (error (codes "timeout waiting for an FPGA PCIe endpoint after repeated rescans"))
          call (host.sleep_for 500000000)
          recovery_loop left preferred strict options deadline)
        pure

  unfoldable pub recover_after_reconfiguration : Option Text → Bool → PcieOptions → M S Text
  recover_after_reconfiguration preferred strict options = do
    say host (codes "recovering PCIe endpoint and XDMA\n")
    unload_module options.module_name
    now ← call host.now
    bdf ← recovery_loop rounds preferred strict options (now + options.timeout * 1000000)
    say host (codes "discovered endpoint: " ++ bdf ++ codes "\n")
    load_module options
    finish_binding bdf options
    pure bdf
