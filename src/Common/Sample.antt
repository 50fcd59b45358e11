-- ===== src/Common/Sample.antt =====
-- A small host for the checks: every path is there, every file is empty, every command succeeds, and
-- only sleeping makes the clock go on.
use mrs_fpga_toolkit.Base.{ℕ, ◌+◌, true, [], length, codes, some}
use mrs_fpga_toolkit.Xdma.{done, System}
use mrs_fpga_toolkit.Common.{Host, exited}

abbrev pub sample_system : System ℕ
sample_system = record {
  open_file = λ path flags s. (done 5, s);
  close_file = λ fd s. s;
  pread = λ fd at s. (record { answer = done 4; bytes = [] }, s);
  pwrite = λ fd bytes at s. (done (length bytes), s);
  read_file = λ fd size s. (record { answer = done 0; bytes = [] }, s);
  write_file = λ fd bytes s. (done (length bytes), s);
  poll_file = λ fd ms s. (record { answer = done 0; revents = 0 }, s);
  now = λ s. (s, s);
}

abbrev pub host_on : {S : Type 0} → System S → (S → ℕ) → (ℕ → S → S) → Host S
host_on sys time pass = record {
  exists = λ path s. (true, s);
  is_directory = λ path s. (true, s);
  entries = λ path s. ([], s);
  canonical = λ path s. (some (codes "/sys/bus/pci/drivers/xdma"), s);
  read_all = λ path s. (some [], s);
  write_all = λ path bytes s. (record { opened = true; written = true }, s);
  is_regular_file = λ path s. (true, s);
  file_size = λ path s. (1, s);
  absolute = λ path s. (path, s);
  make_temporary = λ prefix s. (some (codes "/tmp/probe"), s);
  make_file = λ prefix s. (record { answer = done 9; name = codes "/tmp/hash" }, s);
  unlink = λ path s. (tt, s);
  remove_all = λ path s. (tt, s);
  create_directories = λ path s. (tt, s);
  chmod = λ path mode s. (done 0, s);
  is_executable = λ path s. (true, s);
  search_path = λ s. (some (codes "/usr/bin"), s);
  geteuid = λ s. (0, s);
  make_pipe = λ s. (done 0, s);
  spawn = λ command s. (done 7, s);
  close_read_end = λ s. (tt, s);
  close_write_end = λ s. (tt, s);
  read_pipe = λ s. (record { answer = done 0; bytes = [] }, s);
  wait_child = λ child s. (record { answer = done 7; ending = exited 0 }, s);
  print = λ text s. (tt, s);
  print_error = λ text s. (tt, s);
  now = λ s. (time s, s);
  sleep_for = λ ns s. (tt, pass ns s);
  system = sys;
}

abbrev pub sample_host : Host ℕ
sample_host = host_on sample_system (λ s. s) (λ ns s. s + ns)
