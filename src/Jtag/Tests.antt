-- ===== src/Jtag/Tests.antt =====
-- Checks of the JTAG commands on a small host.
use mrs_fpga_toolkit.Base.{ℕ, ◌≡◌, refl, true, false, all, [], Text, codes, Option, none, some}
use mrs_fpga_toolkit.Common.Sample.{sample_host}
use mrs_fpga_toolkit.Pcie.{starts_with}
use mrs_fpga_toolkit.Common.Numbers.{skip_blanks}
use mrs_fpga_toolkit.Pcie.Quiet.Effects.{Audited, audited}
use mrs_fpga_toolkit.Jtag.{
  JtagCommand, JtagAction, show, find_idcode, idcode_here, after_prefix, hex_word, reports_fail,
  fail_line,
}
use mrs_fpga_toolkit.Jtag.Run.{run_jtag}
use mrs_fpga_toolkit.Jtag.Reads.{show_permits, show_only_reads}

abbrev no_text : Text → Option Text
no_text t = none

abbrev command : JtagAction → JtagCommand
command action = record {
  action = action;
  image = some (codes "top.bit");
  loader = codes "openFPGALoader";
  cable = codes "digilent_hs2";
  frequency = 15000000;
  serial = none;
  loader_arguments = [];
  file_type = none;
  offset = 0;
  fpga_part = codes "xc7a200tfbg484";
  expected_idcode = some 0x03636093;
  idcode_mask = 0x0fffffff;
  confirmed = false;
  reload = false;
  pcie = record {
    bdf = none;
    device_index = 0;
    vendor_id = some 0x10ee;
    device_id = none;
    module_name = codes "xdma";
    module_arguments = [];
    required_nodes = [];
    timeout = 30000;
    device_mode = none;
    json = false;
    include_all = false;
  };
}

abbrev untouched : Audited ℕ
untouched = record { inner = 0; effects = [] }

show_only_reads_example :
    let (r, s') = run_jtag (audited sample_host) 3 no_text no_text (command show) untouched in
    all (show_permits (command show)) s'.effects ≡ true
show_only_reads_example =
    show_only_reads sample_host 3 no_text no_text (command show) untouched refl refl

idcode_found : find_idcode true (codes "idcode 0x3636093\n") ≡ some (codes "0x3636093")
unfolding find_idcode idcode_here after_prefix hex_word skip_blanks
idcode_found = refl

failure_found : reports_fail true (codes "done\n  FAIL\n") ≡ true
unfolding reports_fail fail_line starts_with
failure_found = refl

word_is_no_failure : reports_fail true (codes "FAILED") ≡ false
unfolding reports_fail fail_line starts_with
word_is_no_failure = refl
