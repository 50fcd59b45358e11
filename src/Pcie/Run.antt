-- ===== src/Pcie/Run.antt =====
-- The commands of the XDMA family: `runXdma` of fpgactl/src/pcie.cpp. `message` is `what()` of an exception.
use mrs_fpga_toolkit.Base.{
  ℕ, Bool, true, false, not, ◌&&◌, if◌then◌else◌, List, [], ◌∷◌, ◌++◌, Text, codes, Option, none,
  some,
}
use mrs_fpga_toolkit.Machine.{
  M, ⊤, Exception, error, pure, throw, throw_if, choose, given, when, ◌>>=◌, ◌>>◌,
}
use mrs_fpga_toolkit.Xdma.{call}
use mrs_fpga_toolkit.Common.{Host, say, require_root}
use mrs_fpga_toolkit.Pcie.{
  PcieOptions, XdmaAction, show, list, driver_reload, driver_probe, driver_only, post_reconfigure,
  remove, set_mrrs,
}
use mrs_fpga_toolkit.Pcie.Inspect.{endpoint_details, xdma_nodes}
use mrs_fpga_toolkit.Pcie.Report.{print_endpoint, print_endpoint_json, spaced, value_or}
use mrs_fpga_toolkit.Pcie.Find.{find_current_bdf, matching_endpoints, read_saved_bdf, remember_bdf}
use mrs_fpga_toolkit.Pcie.Lifecycle.{
  unload_module, load_module, finish_binding, reenumerate_known, remove_for_reconfiguration,
  reload_after_iprog, is_visible, recover_after_reconfiguration,
}
use mrs_fpga_toolkit.Pcie.Mrrs

abbrev pub is_set : {A : Type 0} → Option A → Bool
is_set none = false
is_set (some a) = true

module _ {S : Type 0} (host : Host S) (rounds : ℕ) (message : Exception → Text)
    (options : PcieOptions) where
  -- The selected endpoint, or the one that was remembered.
  unfoldable pub selected : M S (Option Text)
  selected = do
    found ← find_current_bdf host options true
    choose (is_set found) (pure found) (read_saved_bdf host options.device_index)

  abbrev module_directory : Text
  module_directory = codes "/sys/module/" ++ options.module_name

  abbrev pub show_json : Option Text → Bool → M S ⊤
  show_json bdf visible = do
    loaded ← call (host.is_directory module_directory)
    say host (
        codes "{\n  \"endpoint_visible\": "
        ++ (if visible then codes "true" else codes "false")
        ++ codes ",\n  \"module_loaded\": "
        ++ (if loaded then codes "true" else codes "false")
        ++ codes ",\n  \"endpoint\": ")
    choose visible
        (do details ← endpoint_details host (value_or bdf []); print_endpoint_json host details 2)
        (say host (codes "null"))
    say host (codes "\n}\n")

  abbrev pub show_text : Option Text → Bool → M S ⊤
  show_text bdf true = do
    details ← endpoint_details host (value_or bdf [])
    print_endpoint host message details
    loaded ← call (host.is_directory module_directory)
    say host (
        codes "  module "
        ++ options.module_name
        ++ codes ": "
        ++ (if loaded then codes "loaded" else codes "not loaded")
        ++ codes "\n")
  show_text bdf false = do
    say host (
        codes "PCIe endpoint: not currently visible\nsaved BDF hint: "
        ++ value_or bdf (codes "none")
        ++ codes "\nXDMA nodes:")
    nodes ← xdma_nodes host options.device_index
    say host (spaced nodes)
    say host (codes "\nrecovery: fpgactl xdma driver --probe or --reload\n")

  unfoldable pub run_show : M S ℕ
  run_show = do
    bdf ← selected
    visible ← is_visible host rounds bdf
    choose options.json (show_json bdf visible) (show_text bdf visible)
    pure 0

  unfoldable pub list_loop : Bool → List Text → M S ⊤
  list_loop first [] = pure tt
  list_loop first (bdf ∷ rest) = do
    when (not options.json && not first) (say host (codes "\n"))
    details ← endpoint_details host bdf
    choose options.json
        (do
          print_endpoint_json host details 2
          say host (elim rest [ [] ↦ codes "\n" | other ∷ more ↦ codes ",\n" ]))
        (print_endpoint host message details)
    list_loop false rest

  unfoldable pub run_list : M S ℕ
  run_list = do
    matches ← matching_endpoints host options
    when options.json (say host (codes "[\n"))
    list_loop true matches
    when options.json (say host (codes "]\n"))
    when (not options.json && elim matches [ [] ↦ true | bdf ∷ rest ↦ false ])
        (say host (codes "no matching PCIe endpoints\n"))
    pure 0

  unfoldable pub run_set_mrrs : Option ℕ → M S ℕ
  run_set_mrrs none = throw (error (codes "the XDMA MRRS action requires a byte count"))
  run_set_mrrs (some requested) = do
    require_root host
    found ← find_current_bdf host options false
    given found (throw (error (codes "cannot find a matching PCIe endpoint"))) (λ bdf. do
      remember_bdf host options.device_index bdf
      Mrrs.set_mrrs host bdf requested
      pure 0)

  -- The endpoint if it is there, by its address; otherwise the recovery.
  abbrev known_or_recover : Bool → Option Text → M S ℕ
  known_or_recover probe_only none = do
    bdf ← recover_after_reconfiguration host rounds none (is_set options.bdf) options
    pure 0
  known_or_recover probe_only (some current) = do
    visible ← is_visible host rounds (some current)
    choose visible (do reenumerate_known host rounds current options false false probe_only; pure 0)
        (do
          bdf ←
              recover_after_reconfiguration host rounds (some current) (is_set options.bdf) options
          pure 0)

  unfoldable pub run_driver_only : Option Text → M S ℕ
  run_driver_only current = do
    unload_module host rounds options.module_name
    load_module host rounds options
    visible ← is_visible host rounds current
    choose visible (finish_binding host rounds (value_or current []) options)
        (say host (codes "XDMA module reloaded; no selected endpoint is currently visible\n"))
    pure 0

  unfoldable pub run_remove : Option Text → M S ℕ
  run_remove current = do
    visible ← is_visible host rounds current
    throw_if (not visible) (error (codes "cannot remove an endpoint that is not visible"))
    remove_for_reconfiguration host rounds (value_or current []) options
    pure 0

  unfoldable pub run_post_reconfigure : Option Text → M S ℕ
  run_post_reconfigure none = do
    bdf ← recover_after_reconfiguration host rounds none (is_set options.bdf) options
    pure 0
  run_post_reconfigure (some current) = do reload_after_iprog host rounds current options; pure 0

  -- The actions that need the endpoint, or what is remembered of it.
  unfoldable pub run_driver : XdmaAction → Option Text → M S ℕ
  run_driver driver_only current = run_driver_only current
  run_driver remove current = run_remove current
  run_driver post_reconfigure current = run_post_reconfigure current
  run_driver driver_probe current = known_or_recover true current
  run_driver driver_reload current = known_or_recover false current
  run_driver _ current = throw (error (codes "unsupported XDMA action"))

  unfoldable pub run_xdma : XdmaAction → Option ℕ → M S ℕ
  run_xdma show requested = run_show
  run_xdma list requested = run_list
  run_xdma set_mrrs requested = run_set_mrrs requested
  run_xdma action requested = do require_root host; current ← selected; run_driver action current
