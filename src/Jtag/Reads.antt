-- ===== src/Jtag/Reads.antt =====
-- What a JTAG command of fpgactl/src/jtag.cpp does to the host when it only shows.
use mrs_fpga_toolkit.Base.{
  ℕ, ◌≡◌, refl, ap, arith, Bool, true, false, ◌||◌, all, List, [], ◌∷◌, ◌++◌, Text, codes, Option,
}
use mrs_fpga_toolkit.Machine.{M}
use mrs_fpga_toolkit.Machine.Keeps.{Keeps-bind, Keeps-chosen, keeps_rules}
use mrs_fpga_toolkit.Xdma.{call}
use mrs_fpga_toolkit.Common.{Host, require_root}
use mrs_fpga_toolkit.Common.Files.{command_exists, search_directories}
use mrs_fpga_toolkit.Pcie.Quiet.Effects.{
  Effect, wrote, made_directory, changed_mode, removed, spawned, device_write, Audited, audited,
}
use mrs_fpga_toolkit.Pcie.Quiet.Effects.Bounds.{
  other-Permitted, run_process-Permitted, print_error-Permitted,
}
use mrs_fpga_toolkit.Pcie.Quiet.Effects.Probe.{Fine, print-Fine, same_command, same_command_refl}
use mrs_fpga_toolkit.Jtag.{JtagCommand, show, is_show, loader_base_command}
use mrs_fpga_toolkit.Jtag.Loader.{detect_target, check_idcode, report_temperature}
use mrs_fpga_toolkit.Jtag.Run.{check_options, run_show, run_jtag}

-- Nothing but the two runs of the loader that detect the target and read its temperature.
abbrev pub show_permits : JtagCommand → Effect → Bool
show_permits options (wrote path bytes) = false
show_permits options (made_directory path) = false
show_permits options (removed path) = false
show_permits options (changed_mode path mode) = false
show_permits options (spawned command) =
    same_command command (loader_base_command options ++ codes "--detect" ∷ [])
    || same_command command (loader_base_command options ++ codes "--read_xadc" ∷ [])
show_permits options (device_write fd bytes offset) = false

module _ {S : Type 0} (host : Host S) (rounds : ℕ) (celsius detail : Text → Option Text)
    (options : JtagCommand) where
  abbrev Reads : {A : Type 0} → M (Audited S) A → Type 0
  Reads m = Fine host (show_permits options) rounds m

  say-Reads : (text : Text) → Reads (call ((audited host).print text))
  say-Reads text = print-Fine host (show_permits options) rounds text

  search_directories-Reads :
      (executable : Text) (directories : List Text)
      → Reads (search_directories (audited host) executable directories)
  unfolding search_directories
  search_directories-Reads executable [] = search keeps_rules
  search_directories-Reads executable (directory ∷ rest) =
      Keeps-bind _ _ (other-Permitted host (show_permits options) rounds _ (λ s. refl))
        (λ found. let further = search_directories-Reads executable rest in search keeps_rules)

  command_exists-Reads : (executable : Text) → Reads (command_exists (audited host) executable)
  unfolding command_exists
  command_exists-Reads executable =
      let asks = λ (t : Text).
        other-Permitted host (show_permits options) rounds ((audited host).is_executable t)
          (λ s. refl) in
      let path =
        other-Permitted host (show_permits options) rounds (audited host).search_path (λ s. refl) in
      search (keeps_rules, asks, search_directories-Reads) depth 12

  require_root-Reads : Reads (require_root (audited host))
  unfolding require_root
  require_root-Reads =
      let user =
        other-Permitted host (show_permits options) rounds (audited host).geteuid (λ s. refl) in
      search keeps_rules depth 9

  check_idcode-Reads : (idcode : ℕ) → Reads (check_idcode (audited host) rounds options idcode)
  check_idcode-Reads idcode = search (keeps_rules, say-Reads) depth 9

  detect_target-Reads : Reads (detect_target (audited host) rounds options)
  unfolding detect_target
  detect_target-Reads =
      let run =
        run_process-Permitted host (show_permits options) rounds
          (loader_base_command options ++ codes "--detect" ∷ []) true
          (ground
            (arith, same_command_refl (loader_base_command options ++ codes "--detect" ∷ []))) in
      search (keeps_rules, say-Reads, check_idcode-Reads) depth 14

  report_temperature-Reads : Reads (report_temperature (audited host) rounds options celsius)
  unfolding report_temperature
  report_temperature-Reads =
      let run =
        run_process-Permitted host (show_permits options) rounds
          (loader_base_command options ++ codes "--read_xadc" ∷ []) false
          (ground
            (arith, same_command_refl (loader_base_command options ++ codes "--read_xadc" ∷ []))) in
      let warn = λ (t : Text). print_error-Permitted host (show_permits options) rounds t in
      search (keeps_rules, say-Reads, warn) depth 14

  run_show-Reads : Reads (run_show (audited host) rounds celsius detail options)
  unfolding run_show
  run_show-Reads =
      let detected = detect_target-Reads in
      let reported = report_temperature-Reads in search (keeps_rules, say-Reads) depth 12

  check_options-Reads : Reads (check_options (audited host) rounds celsius detail options)
  unfolding check_options
  check_options-Reads = search keeps_rules depth 12

  run_jtag-Reads :
      is_show options.action ≡ true → Reads (run_jtag (audited host) rounds celsius detail options)
  unfolding run_jtag
  run_jtag-Reads shows =
      let exists = command_exists-Reads options.loader in
      let root = require_root-Reads in
      let checks = check_options-Reads in
      Keeps-bind _ _ checks (λ _. Keeps-bind _ _ exists (λ found.
        Keeps-bind _ _ (search keeps_rules)
          (λ _. Keeps-bind _ _ root (λ _. Keeps-chosen _ _ _ shows run_show-Reads))))

-- `fpgactl jtag` without a program action only reads: from a host whose effects are counted from here, and whatever it answers, the
-- only commands that are run are the two of the loader that detect the target and read its temperature; no file is written and no
-- device touched.
pub show_only_reads :
    {S : Type 0} (host : Host S) (rounds : ℕ) (celsius detail : Text → Option Text)
    (options : JtagCommand) (s : Audited S)
    → options.action ≡ show
    → s.effects ≡ []
    → let (r, s') = run_jtag (audited host) rounds celsius detail options s in
      all (show_permits options) s'.effects ≡ true
show_only_reads host rounds celsius detail options s shows none_yet =
    (run_jtag-Reads host rounds celsius detail options (ap is_show shows)).at s
      (ap (all (show_permits options)) none_yet)
