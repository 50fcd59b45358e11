-- ===== src/AxiGpio/Tests.antt =====
-- The GPIO block at concrete inputs: plain storage, and a status register that toggles on write.
use mrs_fpga_toolkit.Base.{
  ℕ, ◌<◌, ◌≤◌, ◌^◌, ◌≡◌, ◌≢◌, ◌↔◌, refl, arith, ◌==◌, if◌then◌else◌, bit_xor, true,
}
use mrs_fpga_toolkit.Base.Bits.{bit_at}
use mrs_fpga_toolkit.Machine.{Bus, ok, throws, invalid_argument, ◌>>◌}
use mrs_fpga_toolkit.Machine.RegisterFile.{Storage, storage_bus, storage_bus-IsRegisterFile}
use mrs_fpga_toolkit.IpDriverLite.{validate_offset}
use mrs_fpga_toolkit.AxiGpio.{
  AxiGpio, channel1, channel2, validate_interrupt_mask, clear_interrupts, write_data, read_data,
  direction, set_direction,
}
use mrs_fpga_toolkit.AxiGpio.Interrupts.{
  TogglesOnWrite, validate_interrupt_mask_iff, clear_interrupts_bits,
}
use mrs_fpga_toolkit.AxiGpio.Pins.{pins_independent}

abbrev pins : AxiGpio Storage
pins = record {
  lite = record { registers = storage_bus; base_address = 0x1000; register_span = 0x12c };
  dual_channel = true;
}

abbrev start : Storage
start = record { cells = λ a. 3; ticks = 0 }

abbrev toggle_bus : Bus Storage
toggle_bus = record storage_bus {
  write_reg = λ a v s.
      (ok tt, record s { cells = λ b. if a == b then bit_xor (s.cells b) v else s.cells b });
}

abbrev toggling : AxiGpio Storage
toggling = record {
  lite = record { registers = toggle_bus; base_address = 0x1000; register_span = 0x12c };
  dual_channel = true;
}

toggle_bus-TogglesOnWrite : TogglesOnWrite toggle_bus 0x1120 (λ s. s.cells)
toggle_bus-TogglesOnWrite = record {
  read_ok = λ s. refl;
  read_keeps = λ b s. refl;
  write_ok = λ v s. refl;
  write_toggles = λ v b s. refl;
}

validate_interrupt_mask_iff_example :
    ((validate_interrupt_mask pins 5 ≡ ok 5) ↔ (5 < 2 ^ 2))
    × ((validate_interrupt_mask pins 5
          ≡ throws (invalid_argument "AXI GPIO interrupt mask selects an unavailable channel"))
        ↔ (2 ^ 2 ≤ 5))
validate_interrupt_mask_iff_example = validate_interrupt_mask_iff pins 5 (omega arith)

clear_interrupts_bits_example :
    let (r, s') = clear_interrupts toggling 2 start in
    (r ≡ ok tt)
    × ((k : ℕ) → bit_at k (s'.cells 0x1120) ≡ (if bit_at k 2 == 1 then 0 else bit_at k 3))
    × ((b : ℕ) → b ≢ 0x1120 → s'.cells b ≡ 3)
unfolding validate_offset
clear_interrupts_bits_example =
    clear_interrupts_bits toggling 2 start toggle_bus-TogglesOnWrite refl (omega arith)

pins_independent_example :
    (((write_data pins channel1 7 >> read_data pins channel2) start).0
      ≡ (read_data pins channel2 start).0)
    × (((write_data pins channel1 7 >> direction pins channel2) start).0
        ≡ (direction pins channel2 start).0)
    × (((set_direction pins channel1 7 >> direction pins channel2) start).0
        ≡ (direction pins channel2 start).0)
    × (((set_direction pins channel1 7 >> read_data pins channel2) start).0
        ≡ (read_data pins channel2 start).0)
pins_independent_example =
    pins_independent pins channel1 channel2 7 start storage_bus-IsRegisterFile
      record { span = refl; fits = omega arith } tt refl
