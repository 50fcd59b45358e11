-- ===== src/Pcie/Quiet/Effects.antt =====
-- A host that keeps what is done to it: files written, directories made or removed, modes changed, commands run, and writes to
-- device and configuration files, the newest first.
pub mod Bounds
pub mod Probe
pub mod Removal
use mrs_fpga_toolkit.Base.{
  ℕ, zero, suc, ◌≡◌, refl, arith, Bool, true, false, ◌&&◌, all, List, [], ◌∷◌, Text, Option, none,
  some,
}
use mrs_fpga_toolkit.Machine.{M, Exception}
use mrs_fpga_toolkit.Machine.Keeps.{Keeps, keeps_rules}
use mrs_fpga_toolkit.Xdma.{Answer, done, failed, System, call}
use mrs_fpga_toolkit.Common.{Host}
use mrs_fpga_toolkit.Pcie.{PcieOptions}
use mrs_fpga_toolkit.Pcie.Quiet.{IsLooking, run_show-Looks, run_list-Looks}
use mrs_fpga_toolkit.Pcie.Run.{run_show, run_list}

pub data Effect : Type 0 where
  wrote : Text → List ℕ → Effect
  made_directory : Text → Effect
  changed_mode : Text → ℕ → Effect
  removed : Text → Effect
  spawned : List Text → Effect
  device_write : ℕ → List ℕ → ℕ → Effect

pub record Audited (S : Type 0) : Type 0 where
  pub inner : S
  pub effects : List Effect

module _ {S A : Type 0} where
  abbrev pub beside : (S → A × S) → Audited S → A × Audited S
  beside f s = let (a, s') = f s.inner in (a, record { inner = s'; effects = s.effects })

  abbrev pub noted : Effect → (S → A × S) → Audited S → A × Audited S
  noted e f s = let (a, s') = f s.inner in (a, record { inner = s'; effects = e ∷ s.effects })

abbrev pub audited_system : {S : Type 0} → System S → System (Audited S)
audited_system sys = record {
  open_file = λ path flags. beside (sys.open_file path flags);
  close_file = λ fd s. record { inner = sys.close_file fd s.inner; effects = s.effects };
  pread = λ fd at. beside (sys.pread fd at);
  pwrite = λ fd bytes at. noted (device_write fd bytes at) (sys.pwrite fd bytes at);
  read_file = λ fd size. beside (sys.read_file fd size);
  write_file = λ fd bytes. noted (device_write fd bytes 0) (sys.write_file fd bytes);
  poll_file = λ fd ms. beside (sys.poll_file fd ms);
  now = beside sys.now;
}

abbrev pub audited : {S : Type 0} → Host S → Host (Audited S)
audited host = record {
  exists = λ path. beside (host.exists path);
  is_directory = λ path. beside (host.is_directory path);
  entries = λ path. beside (host.entries path);
  canonical = λ path. beside (host.canonical path);
  read_all = λ path. beside (host.read_all path);
  write_all = λ path bytes. noted (wrote path bytes) (host.write_all path bytes);
  is_regular_file = λ path. beside (host.is_regular_file path);
  file_size = λ path. beside (host.file_size path);
  absolute = λ path. beside (host.absolute path);
  make_temporary = λ prefix. noted (made_directory prefix) (host.make_temporary prefix);
  make_file = λ prefix. noted (wrote prefix []) (host.make_file prefix);
  unlink = λ path. noted (removed path) (host.unlink path);
  remove_all = λ path. noted (removed path) (host.remove_all path);
  create_directories = λ path. noted (made_directory path) (host.create_directories path);
  chmod = λ path mode. noted (changed_mode path mode) (host.chmod path mode);
  is_executable = λ path. beside (host.is_executable path);
  search_path = beside host.search_path;
  geteuid = beside host.geteuid;
  make_pipe = beside host.make_pipe;
  spawn = λ command. noted (spawned command) (host.spawn command);
  close_read_end = beside host.close_read_end;
  close_write_end = beside host.close_write_end;
  read_pipe = beside host.read_pipe;
  wait_child = λ child. beside (host.wait_child child);
  print = λ text. beside (host.print text);
  print_error = λ text. beside (host.print_error text);
  now = beside host.now;
  sleep_for = λ ns. beside (host.sleep_for ns);
  system = audited_system host.system;
}

-- Looking at the host and printing has no effect in this sense.
pub audited-Looking :
    {S : Type 0} (host : Host S) (Q : List Effect → Type 0)
    → IsLooking (audited host) (λ s. Q s.effects)
unfolding call
audited-Looking host Q = record {
  exists = λ path. record { at = λ s h. h };
  is_directory = λ path. record { at = λ s h. h };
  entries = λ path. record { at = λ s h. h };
  canonical = λ path. record { at = λ s h. h };
  read_all = λ path. record { at = λ s h. h };
  print = λ text. record { at = λ s h. h };
}

-- `fpgactl xdma` with the actions `show` and `list` only looks: whatever the host answers, and however the command
-- ends, no file is written, no directory made, no mode changed, no command run, and no device written.
pub show_list_have_no_effect :
    {S : Type 0} (host : Host S) (rounds : ℕ) (message : Exception → Text) (options : PcieOptions)
    (s : Audited S)
    → ((run_show (audited host) rounds message options s).1.effects ≡ s.effects)
      × ((run_list (audited host) rounds message options s).1.effects ≡ s.effects)
show_list_have_no_effect host rounds message options s =
    let looking = audited-Looking host (λ e. e ≡ s.effects) in
    (
      (run_show-Looks (audited host) rounds message options looking).at s refl,
      (run_list-Looks (audited host) rounds message options looking).at s refl,
    )
