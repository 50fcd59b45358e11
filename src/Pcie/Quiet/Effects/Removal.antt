-- ===== src/Pcie/Quiet/Effects/Removal.antt =====
-- What the removal before a reconfiguration does to the host.
use mrs_fpga_toolkit.Base.{
  ℕ, ◌≡◌, refl, ap, sym, subst, arith, Bool, true, false, not, ◌||◌, all, [], ◌∷◌, ◌++◌, Text,
  codes,
}
use mrs_fpga_toolkit.Machine.{M, ok, lift, pure, continue, ◌>>=◌}
use mrs_fpga_toolkit.Machine.Keeps.{
  Keeps, Keeps-bind, Keeps-first, Keeps-when, Keeps-choose, Keeps-throw, Keeps-throw_if, Keeps-pure,
}
use mrs_fpga_toolkit.Xdma.{call}
use mrs_fpga_toolkit.Common.{Host}
use mrs_fpga_toolkit.Pcie.{
  PcieOptions, sysfs_pci, same_text, runtime_state, starts_with, normalize_bdf,
}
use mrs_fpga_toolkit.Pcie.Inspect.{endpoint_path}
use mrs_fpga_toolkit.Pcie.Lifecycle.{
  write_one, unload_module, remove_endpoint, reenumerate_known, remove_for_reconfiguration,
}
use mrs_fpga_toolkit.Pcie.Quiet.Effects.{
  Effect, wrote, made_directory, changed_mode, removed, spawned, device_write, Audited, audited,
}
use mrs_fpga_toolkit.Pcie.Quiet.Effects.Bounds.{looking, write_all-Permitted, run_checked-Permitted}
use mrs_fpga_toolkit.Pcie.Quiet.Effects.Probe.{
  Fine, wait_until-Fine, exists-Fine, print-Fine, remember_bdf-Fine, same_command, same_text_refl,
  same_command_refl, is_hint,
}

-- What a removal may do: keep its hint, unload the driver, and remove that endpoint.
abbrev pub removal_permits : Text → PcieOptions → Effect → Bool
removal_permits address options (wrote path bytes) =
    same_text path ((sysfs_pci ++ codes "/devices/" ++ address) ++ codes "/remove") || is_hint path
removal_permits address options (made_directory path) = same_text path runtime_state
removal_permits address options (removed path) = false
removal_permits address options (changed_mode path mode) = false
removal_permits address options (spawned command) =
    same_command command (codes "modprobe" ∷ codes "-r" ∷ options.module_name ∷ [])
removal_permits address options (device_write fd bytes offset) = false

module _ {S A B : Type 0} {P : S → Type 0} where
  -- A check that passes with a known value.
  Keeps-known :
      (m : M S A) (a : A) (f : A → M S B)
      → ((s : S) → m s ≡ pure a s)
      → Keeps P (f a)
      → Keeps P (m >>= f)
  unfolding ◌>>=◌
  Keeps-known m a f same k = record {
    at = λ s h. subst (λ r. P (continue r.0 f r.1).1) (sym (same s)) (k.at s h);
  }

module _ {S : Type 0} (host : Host S) (rounds : ℕ) (bdf address : Text) (options : PcieOptions)
    (valid : normalize_bdf bdf ≡ ok address) where
  abbrev endpoint : Text
  endpoint = sysfs_pci ++ codes "/devices/" ++ address

  abbrev permits : Effect → Bool
  permits = removal_permits address options

  endpoint_path_lem : (s : Audited S) → endpoint_path (audited host) bdf s ≡ pure endpoint s
  unfolding endpoint_path ◌>>=◌
  endpoint_path_lem s =
      ap (λ r. (lift r >>= (λ n. pure (sysfs_pci ++ codes "/devices/" ++ n))) s) valid

  write_one-Fine :
      Fine host permits rounds (write_one (audited host) rounds (endpoint ++ codes "/remove"))
  unfolding write_one
  write_one-Fine =
      Keeps-bind _ _
        (write_all-Permitted host permits rounds (endpoint ++ codes "/remove") (codes "1\n")
          (ground (arith, same_text_refl (endpoint ++ codes "/remove"))))
        (λ result. Keeps-throw_if _ _)

  unload-Fine : Fine host permits rounds (unload_module (audited host) rounds options.module_name)
  unfolding unload_module
  unload-Fine = Keeps-bind _ _ ((looking host permits rounds).is_directory _) (λ loaded.
      Keeps-when _ _ (
        Keeps-bind _ _ (print-Fine host permits rounds _) (λ _.
          run_checked-Permitted host permits rounds _
            (same_command_refl (codes "modprobe" ∷ codes "-r" ∷ options.module_name ∷ [])))))

  remove_endpoint-Fine :
      (b : Bool)
      → Fine host permits rounds (remove_endpoint (audited host) rounds bdf endpoint options b)
  unfolding remove_endpoint
  remove_endpoint-Fine b = Keeps-bind _ _ unload-Fine (λ _.
      Keeps-bind _ _ (exists-Fine host permits rounds _) (λ removable.
        Keeps-choose _ _ _
          (Keeps-bind _ _ (print-Fine host permits rounds _) (λ _.
            Keeps-bind _ _ write_one-Fine
              (λ _. wait_until-Fine host permits rounds _ _ _ _ _ gone)))
          (Keeps-choose _ _ _ (Keeps-throw _) (print-Fine host permits rounds _))))
    where
      gone :
          Fine host permits rounds
            (call ((audited host).exists endpoint) >>= λ there. pure (not there))
      gone = Keeps-bind _ _ (exists-Fine host permits rounds _) (λ there. Keeps-pure _)

  remove-Fine :
      Fine host permits rounds (remove_for_reconfiguration (audited host) rounds bdf options)
  unfolding remove_for_reconfiguration reenumerate_known starts_with
  remove-Fine =
      Keeps-bind _ _
        (remember_bdf-Fine host permits rounds (same_text_refl runtime_state) (λ index bytes. refl)
          options.device_index bdf)
        (λ _. Keeps-known _ endpoint _ endpoint_path_lem (
          Keeps-bind _ _ (Keeps-when _ _ (remove_endpoint-Fine false))
            (λ _. Keeps-first _ _ (print-Fine host permits rounds _))))

-- Before a reconfiguration an endpoint with a valid address is only removed: besides keeping the hint under /run, the tool
-- unloads the driver and writes to the `remove` control of that one endpoint. Whatever the host answers, it never asks for
-- a rescan, never loads the driver again, and removes no other endpoint.
pub removal_stays_removed :
    {S : Type 0} (host : Host S) (rounds : ℕ) (bdf address : Text) (options : PcieOptions)
    (s : Audited S)
    → normalize_bdf bdf ≡ ok address
    → s.effects ≡ []
    → let (r, s') = remove_for_reconfiguration (audited host) rounds bdf options s in
      all (removal_permits address options) s'.effects ≡ true
removal_stays_removed host rounds bdf address options s valid none_yet =
    (remove-Fine host rounds bdf address options valid).at s
      (ap (all (removal_permits address options)) none_yet)
