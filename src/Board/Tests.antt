-- ===== src/Board/Tests.antt =====
-- Runs of the board command of fpgactl/src/board.cpp.
use mrs_fpga_toolkit.Base.{
  ℕ, ◌==◌, ◌≡◌, refl, if◌then◌else◌, true, List, [], codes, digits, to_string, none,
}
use mrs_fpga_toolkit.Xdma.{System, done}
use mrs_fpga_toolkit.Xdma.User.{little_bytes}
use mrs_fpga_toolkit.Common.{Host}
use mrs_fpga_toolkit.Common.Sample.{host_on, sample_system}
use mrs_fpga_toolkit.Pcie.Quiet.Effects.{audited}
use mrs_fpga_toolkit.BoardText.{json_escape}
use mrs_fpga_toolkit.Board.{BoardCommand, show, Units, BoardSnapshot, snapshot_json, run_board}
use mrs_fpga_toolkit.Board.Reads.{run_board_only_reads}

-- The product identifier answers at address 0; every other register holds 7.
abbrev board_word : ℕ → List ℕ
board_word at = little_bytes 4 (if at == 0 then 0x41424300 else 7)

abbrev board_system : System ℕ
board_system = record sample_system {
  open_file = λ path flags s. (done 3, s);
  pread = λ fd at s. (record { answer = done 4; bytes = board_word at }, s);
}

abbrev board_host : Host ℕ
board_host = host_on board_system (λ s. s) (λ ns s. s)

abbrev plain_units : Units
plain_units = record { celsius = λ digits n. to_string n; volts = λ digits n. to_string n }

abbrev show_command : BoardCommand
show_command = record {
  action = show;
  device = none;
  device_index = 0;
  layout = record { gpio_base = 0x0000; dna_base = 0x1000; xadc_base = 0x3000 };
  json = true;
}

run_board_only_reads_example :
    (run_board
      (audited board_host)
      plain_units
      3
      show_command
      record { inner = 0; effects = [] }).1.effects
    ≡ []
run_board_only_reads_example =
    run_board_only_reads board_host plain_units 3 show_command record { inner = 0; effects = [] }
      refl

abbrev seen : BoardSnapshot
seen = record {
  product_id = codes "A\"";
  version = 18;
  device_dna = 0x1f;
  temperature = 1;
  vccint = 2;
  vccaux = 3;
}

snapshot_is_printed :
    snapshot_json plain_units seen
    ≡ codes
        "{\n  \"product_id\": \"A\\\"\",\n  \"version\": 18,\n  \"device_dna\": \"0x000000000000001f\",\n  \"temperature_celsius\": 1,\n  \"vccint_volts\": 2,\n  \"vccaux_volts\": 3\n}\n"
unfolding snapshot_json json_escape digits
snapshot_is_printed = refl
