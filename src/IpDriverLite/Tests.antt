-- ===== src/IpDriverLite/Tests.antt =====
-- The driver over plain storage: runs, and the theorems at concrete inputs.
use mrs_fpga_toolkit.Base.{
  ℕ, ◌+◌, ◌%◌, ◌≤◌, ◌<◌, ◌≡◌, ◌≢◌, refl, ◌↔◌, arith, ◌==◌, if◌then◌else◌, false,
}
use mrs_fpga_toolkit.Base.Bits.{bit_at}
use mrs_fpga_toolkit.Base.Int.{pos, negsuc}
use mrs_fpga_toolkit.Machine.{ok, throws, out_of_range, ◌>>=◌, ◌>>◌, clock_now, sleep}
use mrs_fpga_toolkit.Machine.Keeps.{Keeps}
use mrs_fpga_toolkit.Machine.RegisterFile.{Storage, storage_bus, storage_bus-IsRegisterFile}
use mrs_fpga_toolkit.IpDriverLite.{
  IpDriverLite, validate_offset, read32, write32, read64_at, read64_stable, write64_at, update32,
  wait_masked,
}
use mrs_fpga_toolkit.IpDriverLite.Bounds.{validate_offset_iff}
use mrs_fpga_toolkit.IpDriverLite.Words.{read64-write64}
use mrs_fpga_toolkit.IpDriverLite.Update.{update32_bits}
use mrs_fpga_toolkit.IpDriverLite.Window.{on_record, LogInside, stays_inside}

abbrev block : IpDriverLite Storage
block = record { registers = storage_bus; base_address = 0x1000; register_span = 0x20 }

abbrev blank : Storage
blank = record { cells = λ a. 0xf0; ticks = 0 }

write_outside :
    (write32 block 0x20 7 blank).0
    ≡ throws (out_of_range "AXI-Lite register offset lies outside the IP span")
unfolding write32 validate_offset ◌>>=◌
write_outside = refl

update_nibble : (update32 block 0x4 0x3f 0x15 blank).0 ≡ ok 0xd5
unfolding update32 read32 write32 validate_offset ◌>>=◌
update_nibble = refl

wait_gives_up :
    (wait_masked block 0 0xff 1 3 (pos 2) blank).0
    ≡ ok (record { reached = false; final_value = 0xf0 })
unfolding wait_masked read32 validate_offset ◌>>=◌ clock_now sleep
wait_gives_up = refl

validate_offset_iff_example :
    (validate_offset block 0x1c 4 ≡ ok tt)
    ↔ ((0x1c % 4 ≡ 0) × (0x1c + 4 ≤ 0x20) × (0x1000 + 0x1c < 0x100000000))
validate_offset_iff_example = validate_offset_iff block 0x1c (omega arith)

read64-write64_example :
    ((write64_at block 8 12 0x123456789a >> read64_at block 8 12) blank).0 ≡ ok 0x123456789a
unfolding validate_offset
read64-write64_example =
    read64-write64 block 8 12 0x123456789a blank storage_bus-IsRegisterFile refl refl (omega arith)
      (omega arith) (omega arith) (omega arith)

update32_bits_example :
    let a : ℕ = 0x1004 in
    let (r, s') = update32 block 4 0x3f 0x15 blank in
    (r ≡ ok (s'.cells a))
    × ((k : ℕ)
        → k < 32
        → bit_at k (s'.cells a) ≡ (if bit_at k 0x3f == 1 then bit_at k 0x15 else bit_at k 0xf0))
    × ((b : ℕ) → b ≢ a → s'.cells b ≡ 0xf0)
unfolding validate_offset
update32_bits_example =
    update32_bits block 4 0x3f 0x15 blank storage_bus-IsRegisterFile refl (omega arith)

stays_inside_example :
    let d = on_record storage_bus 0x1000 0x20 in
    Keeps (LogInside d) (read32 d 4)
    × Keeps (LogInside d) (write32 d 4 1)
    × Keeps (LogInside d) (read64_at d 4 8)
    × Keeps (LogInside d) (read64_stable d 5 4 8)
    × Keeps (LogInside d) (write64_at d 4 8 1)
    × Keeps (LogInside d) (update32 d 4 3 1)
    × Keeps (LogInside d) (wait_masked d 4 3 1 9 (negsuc 0))
stays_inside_example =
    stays_inside storage_bus 0x1000 0x20 4 8 1 3 9 5 (negsuc 0) (omega arith) (omega arith)
      (omega arith)
