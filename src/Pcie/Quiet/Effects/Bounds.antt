-- ===== src/Pcie/Quiet/Effects/Bounds.antt =====
-- What the commands of fpgactl/src/pcie.cpp that change the host may do to it.
use mrs_fpga_toolkit.Base.{
  ℕ, zero, suc, ◌≡◌, refl, ap, ◌∙◌, arith, Bool, true, all, List, [], ◌∷◌, Text,
}
use mrs_fpga_toolkit.Machine.Keeps.{Keeps, keeps_rules}
use mrs_fpga_toolkit.Xdma.{Answer, done, failed, call}
use mrs_fpga_toolkit.Common.{Host}
use mrs_fpga_toolkit.Common.Process.{
  received, collect, waited, reap, parent, with_pipe, run_process, run_checked,
}
use mrs_fpga_toolkit.Pcie.Quiet.{IsLooking}
use mrs_fpga_toolkit.Pcie.Quiet.Effects.{
  Effect, wrote, made_directory, changed_mode, spawned, Audited, audited, audited-Looking,
}

-- Methods all of whose effects are permitted.
module _ {S : Type 0} (host : Host S) (permits : Effect → Bool) (rounds : ℕ) where
  abbrev pub Permitted : Audited S → Type 0
  Permitted s = all permits s.effects ≡ true

  pub looking : IsLooking (audited host) Permitted
  looking = audited-Looking host (λ e. all permits e ≡ true)

  pub write_all-Permitted :
      (path : Text) (bytes : List ℕ)
      → permits (wrote path bytes) ≡ true
      → Keeps Permitted (call ((audited host).write_all path bytes))
  unfolding call
  write_all-Permitted path bytes h = record { at = λ s k. ground (arith, h, k) }

  pub chmod-Permitted :
      (path : Text) (mode : ℕ)
      → permits (changed_mode path mode) ≡ true
      → Keeps Permitted (call ((audited host).chmod path mode))
  unfolding call
  chmod-Permitted path mode h = record { at = λ s k. ground (arith, h, k) }

  spawn-Permitted :
      (command : List Text)
      → permits (spawned command) ≡ true
      → Keeps Permitted (call ((audited host).spawn command))
  unfolding call
  spawn-Permitted command h = record { at = λ s k. ground (arith, h, k) }

  pub directories-Permitted :
      (path : Text)
      → permits (made_directory path) ≡ true
      → Keeps Permitted (call ((audited host).create_directories path))
  unfolding call
  directories-Permitted path h = record { at = λ s k. ground (arith, h, k) }

  -- The other calls that are not among those that look.
  pub other-Permitted :
      {A : Type 0} (f : Audited S → A × Audited S)
      → ((s : Audited S) → (f s).1.effects ≡ s.effects)
      → Keeps Permitted (call f)
  unfolding call
  other-Permitted f same = record { at = λ s k. ap (all permits) (same s) ∙ k }

  pub sleep_for-Permitted : (ns : ℕ) → Keeps Permitted (call ((audited host).sleep_for ns))
  sleep_for-Permitted ns = other-Permitted _ (λ s. refl)

  pub now-Permitted : Keeps Permitted (call (audited host).now)
  now-Permitted = other-Permitted _ (λ s. refl)

  pub print_error-Permitted :
      (text : Text) → Keeps Permitted (call ((audited host).print_error text))
  print_error-Permitted text = other-Permitted _ (λ s. refl)

  close_read_end-Permitted : Keeps Permitted (call (audited host).close_read_end)
  close_read_end-Permitted = other-Permitted _ (λ s. refl)

  close_write_end-Permitted : Keeps Permitted (call (audited host).close_write_end)
  close_write_end-Permitted = other-Permitted _ (λ s. refl)

  make_pipe-Permitted : Keeps Permitted (call (audited host).make_pipe)
  make_pipe-Permitted = other-Permitted _ (λ s. refl)

  read_pipe-Permitted : Keeps Permitted (call (audited host).read_pipe)
  read_pipe-Permitted = other-Permitted _ (λ s. refl)

  wait_child-Permitted : (child : ℕ) → Keeps Permitted (call ((audited host).wait_child child))
  wait_child-Permitted child = other-Permitted _ (λ s. refl)

  received-Permitted :
      (echo : Bool) (output : Text) (bytes : List ℕ) (a : Answer)
      → Keeps Permitted (received (audited host) rounds echo output bytes a)
  received-Permitted echo output bytes (failed e) =
      let closed = close_read_end-Permitted in search keeps_rules depth 9
  received-Permitted echo output bytes (done n) = search (keeps_rules, looking.print) depth 9

  collect-Permitted :
      (left : ℕ) (echo : Bool) (output : Text)
      → Keeps Permitted (collect (audited host) rounds left echo output)
  unfolding collect
  collect-Permitted zero echo output = search keeps_rules
  collect-Permitted (suc left) echo output =
      let further = λ (t : Text). collect-Permitted left echo t in
      let pipe = read_pipe-Permitted in search (keeps_rules, received-Permitted, further) depth 12

  waited-Permitted :
      (ending : _) (a : Answer) → Keeps Permitted (waited (audited host) rounds ending a)
  waited-Permitted ending (done n) = search keeps_rules
  waited-Permitted ending (failed e) = search keeps_rules

  reap-Permitted : (left child : ℕ) → Keeps Permitted (reap (audited host) rounds left child)
  unfolding reap
  reap-Permitted zero child = search keeps_rules
  reap-Permitted (suc left) child =
      let further = reap-Permitted left child in
      search (keeps_rules, wait_child-Permitted, waited-Permitted) depth 12

  parent-Permitted :
      (echo : Bool) (a : Answer) → Keeps Permitted (parent (audited host) rounds echo a)
  parent-Permitted echo (failed e) =
      let first = close_read_end-Permitted in
      let second = close_write_end-Permitted in search keeps_rules depth 9
  parent-Permitted echo (done child) =
      let first = close_read_end-Permitted in
      let second = close_write_end-Permitted in
      search (keeps_rules, collect-Permitted, reap-Permitted) depth 12

  with_pipe-Permitted :
      (command : List Text) (echo : Bool) (a : Answer)
      → permits (spawned command) ≡ true
      → Keeps Permitted (with_pipe (audited host) rounds command echo a)
  with_pipe-Permitted command echo (failed e) h = search keeps_rules
  with_pipe-Permitted command echo (done n) h =
      let run = spawn-Permitted command h in search (keeps_rules, parent-Permitted) depth 9

  pub run_process-Permitted :
      (command : List Text) (echo : Bool)
      → permits (spawned command) ≡ true
      → Keeps Permitted (run_process (audited host) rounds command echo)
  unfolding run_process
  run_process-Permitted [] echo h = search keeps_rules
  run_process-Permitted (word ∷ rest) echo h =
      let run = λ (a : Answer). with_pipe-Permitted (word ∷ rest) echo a h in
      let pipe = make_pipe-Permitted in search (keeps_rules, run) depth 9

  pub run_checked-Permitted :
      (command : List Text)
      → permits (spawned command) ≡ true
      → Keeps Permitted (run_checked (audited host) rounds command)
  unfolding run_checked
  run_checked-Permitted command h =
      let run = run_process-Permitted command true h in search keeps_rules depth 9
