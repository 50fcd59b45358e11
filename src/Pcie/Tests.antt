-- ===== src/Pcie/Tests.antt =====
-- Checks of the commands of fpgactl/src/pcie.cpp on a small host.
use mrs_fpga_toolkit.Base.{
  ℕ, ◌≡◌, refl, arith, true, false, all, List, [], ◌∷◌, ◌++◌, replicate, length, Text, codes, none,
  some, ◌/◌, ◌%◌, ◌<◌, map,
}
use mrs_fpga_toolkit.Machine.{Exception, ok, ◌>>=◌}
use mrs_fpga_toolkit.Xdma.{System, done, call}
use mrs_fpga_toolkit.Xdma.User.{little_bytes, little_value}
use mrs_fpga_toolkit.Common.{Host}
use mrs_fpga_toolkit.Common.Sample.{sample_host, host_on}
use mrs_fpga_toolkit.PcieConfig.{
  PcieControl, member, little16, capability_loop, decode_pcie_control,
}
use mrs_fpga_toolkit.Pcie.{
  PcieOptions, sysfs_pci, normalize_bdf, is_bus_address, is_full_address, to_lower,
}
use mrs_fpga_toolkit.Pcie.Lifecycle.{reenumerate_known, remove_for_reconfiguration}
use mrs_fpga_toolkit.Pcie.Run.{run_show, run_list}
use mrs_fpga_toolkit.Pcie.Inspect.{endpoint_path, read_config}
use mrs_fpga_toolkit.Pcie.Mrrs.{set_mrrs, update_mrrs, report_mrrs, exchange, encode_mrrs}
use mrs_fpga_toolkit.Pcie.Mrrs.Written.{size_of, read_back, set_mrrs_writes}
use mrs_fpga_toolkit.Pcie.Address.{normalize_bdf_idempotent}
use mrs_fpga_toolkit.Pcie.Quiet.Effects.{Audited, audited, device_write, show_list_have_no_effect}
use mrs_fpga_toolkit.Pcie.Quiet.Effects.Probe.{probe_permits, probe_only_loads}
use mrs_fpga_toolkit.Pcie.Quiet.Effects.Removal.{removal_permits, removal_stays_removed}

abbrev sample_options : PcieOptions
sample_options = record {
  bdf = some (codes "01:00.0");
  device_index = 0;
  vendor_id = some 0x10ee;
  device_id = none;
  module_name = codes "xdma";
  module_arguments = [];
  required_nodes = codes "control" ∷ [];
  timeout = 30000;
  device_mode = some 438;
  json = false;
  include_all = false;
}

abbrev untouched : Audited ℕ
untouched = record { inner = 0; effects = [] }

abbrev no_message : Exception → Text
no_message e = []

address_normalizes : normalize_bdf (codes "0A:00.0") ≡ ok (codes "0000:0a:00.0")
unfolding normalize_bdf is_bus_address
address_normalizes = refl

show_list_have_no_effect_example :
    ((run_show (audited sample_host) 3 no_message sample_options untouched).1.effects ≡ [])
    × ((run_list (audited sample_host) 3 no_message sample_options untouched).1.effects ≡ [])
show_list_have_no_effect_example =
    show_list_have_no_effect sample_host 3 no_message sample_options untouched

probe_only_loads_example :
    let (r, s') =
      reenumerate_known
        (audited sample_host)
        3
        (codes "0A:00.0")
        sample_options
        false
        false
        true
        untouched in
    all (probe_permits sample_options) s'.effects ≡ true
probe_only_loads_example =
    probe_only_loads sample_host 3 (codes "0A:00.0") sample_options false untouched refl

removal_stays_removed_example :
    let (r, s') =
      remove_for_reconfiguration
        (audited sample_host)
        3
        (codes "0A:00.0")
        sample_options
        untouched in
    all (removal_permits (codes "0000:0a:00.0") sample_options) s'.effects ≡ true
removal_stays_removed_example =
    removal_stays_removed sample_host 3 (codes "0A:00.0") (codes "0000:0a:00.0") sample_options
      untouched address_normalizes refl

-- A host whose endpoint has a configuration space with one capability. The state is the device control word in the file.
abbrev config : List ℕ
config =
    replicate 6 0
    ++ 0x10 ∷ replicate 45 0
    ++ 0x40 ∷ replicate 11 0
    ++ 0x10 ∷ replicate 7 0
    ++ 0x36 ∷ 0x59 ∷ replicate 6 0

abbrev word_system : System (List ℕ)
word_system = record {
  open_file = λ path flags s. (done 5, s);
  close_file = λ fd s. s;
  pread = λ fd at s. (record { answer = done 2; bytes = s }, s);
  pwrite = λ fd bytes at s. (done (length bytes), bytes);
  read_file = λ fd size s. (record { answer = done 0; bytes = [] }, s);
  write_file = λ fd bytes s. (done (length bytes), s);
  poll_file = λ fd ms s. (record { answer = done 0; revents = 0 }, s);
  now = λ s. (0, s);
}

abbrev word_host : Host (List ℕ)
word_host = record (host_on word_system (λ s. 0) (λ ns s. s)) {
  read_all = λ path s. (some config, s);
}

abbrev with_word : Audited (List ℕ)
with_word = record { inner = 0x36 ∷ 0x59 ∷ []; effects = [] }

abbrev endpoint : Text
endpoint = sysfs_pci ++ codes "/devices/0000:0a:00.0"

abbrev control_word : PcieControl
control_word = record {
  capability_offset = 0x40;
  device_control = 0x5936;
  mps_bytes = 256;
  mrrs_bytes = 4096;
}

endpoint_is_found :
    endpoint_path (audited word_host) (codes "0A:00.0") with_word ≡ (ok endpoint, with_word)
unfolding endpoint_path normalize_bdf is_bus_address ◌>>=◌
endpoint_is_found = refl

config_is_read :
    read_config (audited word_host) (endpoint ++ codes "/config") with_word ≡ (ok config, with_word)
unfolding read_config call ◌>>=◌
config_is_read = refl

config_is_decoded : decode_pcie_control config with_word ≡ (ok control_word, with_word)
unfolding decode_pcie_control capability_loop little16 member ◌>>=◌
config_is_decoded = refl

set_mrrs_writes_example :
    let (r, s') = set_mrrs (audited word_host) (codes "0A:00.0") 512 with_word in
    (word : ℕ) × (s'.effects ≡ device_write 5 (little_bytes 2 word) 0x48 ∷ [])
    × (size_of word ≡ 512)
    × (word % 4096 ≡ 0x936)
    × (word / 32768 ≡ 0)
    × (word < 65536)
    × (r ≡ ok tt → size_of (little_value (read_back word_host 5 0x48 word with_word)) ≡ 512)
set_mrrs_writes_example =
    set_mrrs_writes word_host (codes "0A:00.0") endpoint 2 5 config control_word with_word with_word
      with_word (omega arith) (omega arith) endpoint_is_found config_is_read config_is_decoded refl

mrrs_is_set : (set_mrrs (audited word_host) (codes "0A:00.0") 512 with_word).0 ≡ ok tt
unfolding set_mrrs update_mrrs report_mrrs exchange encode_mrrs endpoint_path normalize_bdf
    is_bus_address read_config decode_pcie_control capability_loop little16 member little_bytes
    little_value call ◌>>=◌
mrrs_is_set = refl

normalize_bdf_idempotent_example :
    (is_full_address (codes "0000:0a:00.0") ≡ true)
    × (map to_lower (codes "0000:0a:00.0") ≡ codes "0000:0a:00.0")
    × (normalize_bdf (codes "0000:0a:00.0") ≡ ok (codes "0000:0a:00.0"))
normalize_bdf_idempotent_example =
    normalize_bdf_idempotent (codes "0A:00.0") (codes "0000:0a:00.0") address_normalizes
