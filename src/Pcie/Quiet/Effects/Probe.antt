-- ===== src/Pcie/Quiet/Effects/Probe.antt =====
-- What a probe and a removal by fpgactl/src/pcie.cpp do to the host.
use mrs_fpga_toolkit.Base.{
  ℕ, zero, suc, ◌*◌, ◌≡◌, refl, ap, arith, Bool, true, false, ◌&&◌, ◌||◌, all, List, [], ◌∷◌, ◌++◌,
  Text, codes, Option, none, some, ◌==◌, ◌∙◌,
}
use mrs_fpga_toolkit.Machine.{M, pure, given, ◌>>=◌}
use mrs_fpga_toolkit.Machine.Keeps.{Keeps, Keeps-bind, Keeps-skip, Keeps-choose, keeps_rules}
use mrs_fpga_toolkit.Xdma.{Answer, done, failed, call}
use mrs_fpga_toolkit.Common.{Host, wait_loop, wait_until}
use mrs_fpga_toolkit.Pcie.{PcieOptions, same_text, starts_with, runtime_state, saved_bdf_path}
use mrs_fpga_toolkit.Pcie.Find.{remember_bdf}
use mrs_fpga_toolkit.Pcie.Lifecycle.{
  rescan, write_one, load_module, wait_nodes, mode_set, set_modes, finish_binding, rescan_loop,
  rediscover, reenumerate_known,
}
use mrs_fpga_toolkit.Machine.Hands.{Keeps-bind_hands}
use mrs_fpga_toolkit.Pcie.Nodes.{is_node, both_true, xdma_nodes-Hands}
use mrs_fpga_toolkit.Pcie.Inspect.{xdma_nodes}
use mrs_fpga_toolkit.Pcie.Quiet.{
  endpoint_path-Looks, resolved_name-Looks, xdma_nodes-Looks, endpoint_details-Looks,
}
use mrs_fpga_toolkit.Pcie.Quiet.Effects.{
  Effect, wrote, made_directory, changed_mode, removed, spawned, device_write, Audited, audited,
}
use mrs_fpga_toolkit.Pcie.Quiet.Effects.Bounds.{
  Permitted, looking, write_all-Permitted, chmod-Permitted, directories-Permitted,
  sleep_for-Permitted, now-Permitted, print_error-Permitted, run_checked-Permitted,
}

module _ {S : Type 0} (host : Host S) (permits : Effect → Bool) (rounds : ℕ) where
  abbrev pub Fine : {A : Type 0} → M (Audited S) A → Type 0
  Fine m = Keeps (Permitted host permits rounds) m

  wait_loop-Fine :
      (left : ℕ) (predicate : M (Audited S) Bool) (deadline : ℕ) (what : Text) (interval : ℕ)
      → Fine predicate
      → Fine (wait_loop (audited host) left predicate deadline what interval)
  unfolding wait_loop
  wait_loop-Fine zero predicate deadline what interval k = search keeps_rules
  wait_loop-Fine (suc left) predicate deadline what interval k =
      let further = wait_loop-Fine left predicate deadline what interval k in
      let clock = now-Permitted host permits rounds in
      let asleep = sleep_for-Permitted host permits rounds (interval * 1000000) in
      search keeps_rules depth 14

  pub wait_until-Fine :
      (left : ℕ) (predicate : M (Audited S) Bool) (timeout : ℕ) (what : Text) (interval : ℕ)
      → Fine predicate
      → Fine (wait_until (audited host) left predicate timeout what interval)
  unfolding wait_until
  wait_until-Fine left predicate timeout what interval k =
      let clock = now-Permitted host permits rounds in
      Keeps-bind _ _ clock (λ now. wait_loop-Fine left predicate _ what interval k)

  pub exists-Fine : (path : Text) → Fine (call ((audited host).exists path))
  exists-Fine path = (looking host permits rounds).exists path

  pub print-Fine : (text : Text) → Fine (call ((audited host).print text))
  print-Fine text = (looking host permits rounds).print text

  wait_nodes-Fine :
      (options : PcieOptions) (names : List Text)
      → Fine (wait_nodes (audited host) rounds options names)
  unfolding wait_nodes
  wait_nodes-Fine options [] = search keeps_rules
  wait_nodes-Fine options (name ∷ rest) =
      Keeps-bind _ _ (wait_until-Fine rounds _ _ _ _ (exists-Fine _))
        (λ _. wait_nodes-Fine options rest)

  mode_set-Fine : (node : Text) (a : Answer) → Fine (mode_set (audited host) rounds node a)
  mode_set-Fine node (done n) = search keeps_rules
  mode_set-Fine node (failed e) = search keeps_rules

  pub remember_bdf-Fine :
      (directory : permits (made_directory runtime_state) ≡ true)
      (hint : (index : ℕ) (bytes : List ℕ) → permits (wrote (saved_bdf_path index) bytes) ≡ true)
      (index : ℕ) (bdf : Text)
      → Fine (remember_bdf (audited host) index bdf)
  unfolding remember_bdf
  remember_bdf-Fine directory hint index bdf =
      let made = directories-Permitted host permits rounds runtime_state directory in
      let save = λ (bytes : List ℕ).
        write_all-Permitted host permits rounds (saved_bdf_path index) bytes (hint index bytes) in
      let warn = λ (text : Text). print_error-Permitted host permits rounds text in
      search (keeps_rules, save, warn) depth 14

  -- A host on which device modes, the hint under /run and the commands that load the driver are permitted.
  module _ (options : PcieOptions)
      (modes : (path : Text) (mode : ℕ)
        → options.device_mode ≡ some mode
        → is_node options.device_index path ≡ true
        → permits (changed_mode path mode) ≡ true)
      (directory : permits (made_directory runtime_state) ≡ true)
      (hint : (index : ℕ) (bytes : List ℕ)
        → permits (wrote (saved_bdf_path index) bytes) ≡ true) where
    set_modes-Fine :
        (mode : ℕ) (nodes : List Text)
        → options.device_mode ≡ some mode
        → all (is_node options.device_index) nodes ≡ true
        → Fine (set_modes (audited host) rounds mode nodes)
    unfolding set_modes
    set_modes-Fine mode [] e h = search keeps_rules
    set_modes-Fine mode (node ∷ rest) e h =
        let (here, later) = both_true (is_node options.device_index node) _ h in
        Keeps-bind _ _ (chmod-Permitted host permits rounds node mode (modes node mode e here))
          (λ a. Keeps-bind _ _ (mode_set-Fine node a) (λ _. set_modes-Fine mode rest e later))

    -- The nodes whose mode is set are those that were found.
    given_modes-Fine :
        (wanted : Option ℕ)
        → options.device_mode ≡ wanted
        → Fine (
            given wanted (pure tt) (λ mode.
              xdma_nodes (audited host) options.device_index
              >>= set_modes (audited host) rounds mode))
    unfolding given
    given_modes-Fine none e = search keeps_rules
    given_modes-Fine (some mode) e =
        Keeps-bind_hands _ _
          (xdma_nodes-Hands (audited host) (looking host permits rounds) options.device_index)
          (λ nodes h. set_modes-Fine mode nodes e h)

    finish_binding-Fine : (bdf : Text) → Fine (finish_binding (audited host) rounds bdf options)
    unfolding finish_binding
    finish_binding-Fine bdf =
        let modes_set = given_modes-Fine options.device_mode refl in
        let sees = looking host permits rounds in
        let path = λ (b : Text). endpoint_path-Looks (audited host) sees b in
        let name = λ (b : Text). resolved_name-Looks (audited host) sees b in
        let nodes = λ (k : ℕ). xdma_nodes-Looks (audited host) sees k in
        let saved = λ (index : ℕ) (b : Text). remember_bdf-Fine directory hint index b in
        let details = λ (b : Text). endpoint_details-Looks (audited host) sees b in
        search
          (
            keeps_rules, path, name, nodes, details, wait_until-Fine, exists-Fine, print-Fine,
            wait_nodes-Fine, saved,
          )
          depth 24

    load_module-Fine :
        permits (spawned (codes "modprobe" ∷ options.module_name ∷ options.module_arguments)) ≡ true
        → Fine (load_module (audited host) rounds options)
    unfolding load_module
    load_module-Fine h =
        Keeps-bind _ _ (print-Fine _) (λ _. run_checked-Permitted host permits rounds _ h)

    rescan_loop-Fine :
        (left : ℕ) (bdf endpoint : Text) (deadline : ℕ)
        → permits (wrote rescan (codes "1\n")) ≡ true
        → Fine (rescan_loop (audited host) rounds left bdf endpoint deadline)
    unfolding rescan_loop write_one
    rescan_loop-Fine zero bdf endpoint deadline h = search keeps_rules
    rescan_loop-Fine (suc left) bdf endpoint deadline h =
        let further = rescan_loop-Fine left bdf endpoint deadline h in
        let clock = now-Permitted host permits rounds in
        let asleep = sleep_for-Permitted host permits rounds 500000000 in
        let one = write_all-Permitted host permits rounds rescan (codes "1\n") h in
        search (keeps_rules, exists-Fine) depth 14

    rediscover-Fine :
        (bdf endpoint : Text)
        → permits (wrote rescan (codes "1\n")) ≡ true
        → permits (spawned (codes "modprobe" ∷ options.module_name ∷ options.module_arguments))
          ≡ true
        → Fine (rediscover (audited host) rounds bdf endpoint options)
    unfolding rediscover
    rediscover-Fine bdf endpoint hr hl =
        let clock = now-Permitted host permits rounds in
        let looped = λ (deadline : ℕ). rescan_loop-Fine rounds bdf endpoint deadline hr in
        let loaded = load_module-Fine hl in
        search (keeps_rules, print-Fine, looped, finish_binding-Fine) depth 14

    probe-Fine :
        (bdf : Text) (b : Bool)
        → permits (wrote rescan (codes "1\n")) ≡ true
        → permits (spawned (codes "modprobe" ∷ options.module_name ∷ options.module_arguments))
          ≡ true
        → Fine (reenumerate_known (audited host) rounds bdf options b false true)
    unfolding reenumerate_known
    probe-Fine bdf b hr hl =
        let path =
          λ (t : Text). endpoint_path-Looks (audited host) (looking host permits rounds) t in
        Keeps-bind _ _ (path bdf) (λ endpoint.
          Keeps-bind _ _ (Keeps-skip _)
            (λ _. Keeps-choose _ _ _ (print-Fine _) (rediscover-Fine bdf endpoint hr hl)))

abbrev pub same_command : List Text → List Text → Bool
same_command [] [] = true
same_command [] (u ∷ us) = false
same_command (t ∷ ts) [] = false
same_command (t ∷ ts) (u ∷ us) = same_text t u && same_command ts us

pub same_text_refl : (t : Text) → same_text t t ≡ true
same_text_refl [] = refl
same_text_refl (c ∷ cs) = ground (arith, same_text_refl cs)

pub same_command_refl : (t : List Text) → same_command t t ≡ true
same_command_refl [] = refl
same_command_refl (t ∷ ts) = ground (arith, same_text_refl t, same_command_refl ts)

-- A file of the directory of hints.
abbrev pub is_hint : Text → Bool
is_hint path = starts_with (runtime_state ++ codes "/") path

abbrev is_wanted : Option ℕ → ℕ → Bool
is_wanted none mode = false
is_wanted (some wanted) mode = mode == wanted

-- What a probe may do: ask for a rescan, keep its hint, set the modes of nodes, and load the driver.
abbrev pub probe_permits : PcieOptions → Effect → Bool
probe_permits options (wrote path bytes) = same_text path rescan || is_hint path
probe_permits options (made_directory path) = same_text path runtime_state
probe_permits options (removed path) = false
probe_permits options (changed_mode path mode) =
    is_node options.device_index path && is_wanted options.device_mode mode
probe_permits options (spawned command) =
    same_command command (codes "modprobe" ∷ options.module_name ∷ options.module_arguments)
probe_permits options (device_write fd bytes offset) = false

may_set :
    (options : PcieOptions) (path : Text) (mode : ℕ)
    → options.device_mode ≡ some mode
    → is_node options.device_index path ≡ true
    → probe_permits options (changed_mode path mode) ≡ true
may_set options path mode e h =
    let wanted : is_wanted (some mode) mode ≡ true = ground arith in
    let asked = ap (λ (w : Option ℕ). is_wanted w mode) e ∙ wanted in ground (arith, h, asked)

-- `reenumerateKnown` with `probe_only`, which `xdma driver --probe` calls for an endpoint that is visible, only loads: whatever the
-- host answers and however it ends, all it does is to ask for rescans, to keep its hint under /run, to give the nodes of the
-- chosen index under /dev the mode that the options ask for, and to run the one command that loads the driver. It never
-- unloads the driver, never writes to an endpoint's `remove` control, and runs no other command.
pub probe_only_loads :
    {S : Type 0} (host : Host S) (rounds : ℕ) (bdf : Text) (options : PcieOptions)
    (may_be_absent : Bool) (s : Audited S)
    → s.effects ≡ []
    → let (r, s') =
        reenumerate_known (audited host) rounds bdf options may_be_absent false true s in
      all (probe_permits options) s'.effects ≡ true
unfolding starts_with
probe_only_loads host rounds bdf options may_be_absent s none_yet =
    (probe-Fine host (probe_permits options) rounds options (may_set options)
        (same_text_refl runtime_state) (λ index bytes. refl) bdf may_be_absent refl
        (same_command_refl (codes "modprobe" ∷ options.module_name ∷ options.module_arguments))).at
      s (ap (all (probe_permits options)) none_yet)
