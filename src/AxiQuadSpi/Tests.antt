-- ===== src/AxiQuadSpi/Tests.antt =====
-- Transfers over a controller that answers at once.
use mrs_fpga_toolkit.Base.{
  ℕ, ◌+◌, ◌≡◌, ◌≤◌, ◌<◌, refl, arith, ◌==◌, if◌then◌else◌, List, [], ◌∷◌, length, All,
}
use mrs_fpga_toolkit.Machine.{Bus, ok, ◌>>=◌, for_each, clock_now}
use mrs_fpga_toolkit.Machine.Recorded.{Recorded, IsReliable, queued, written}
use mrs_fpga_toolkit.Machine.Recorded.{write}
use mrs_fpga_toolkit.IpDriverLite.{validate_offset, read32, write32}
use mrs_fpga_toolkit.AxiQuadSpi.{
  transfer, clear_interrupts, fifo_loop, reset_fifos, poll_loop, receive,
}
use mrs_fpga_toolkit.Base.Int.{pos}
use mrs_fpga_toolkit.Machine.Recorded.{recorded}
use mrs_fpga_toolkit.Machine.{on_throw, sleep, settle}
use mrs_fpga_toolkit.IpDriverLite.{ip_driver_lite}
use mrs_fpga_toolkit.AxiQuadSpi.{axi_quad_spi, prime_startup_clock, reset, drain}
use mrs_fpga_toolkit.AxiQuadSpi.Startup.{axi_quad_spi_deselects}
use mrs_fpga_toolkit.AxiQuadSpi.Payload.{on_record, sent, transfer_sends}
use mrs_fpga_toolkit.AxiQuadSpi.Deselects.{Deselected, last_written, transfer_deselects}

abbrev answer : ℕ → ℕ → ℕ
answer a s = if a == 0x3020 then 4 else if a == 0x306c then 0xa5 else 0

abbrev quick_bus : Bus ℕ
quick_bus = record {
  read_reg = λ a s. (ok (answer a s), s);
  write_reg = λ a v s. (ok tt, s);
  now = λ s. (s, s + 1);
  sleep_for = λ ns s. s + ns;
}

quick_bus-IsReliable : IsReliable quick_bus answer
quick_bus-IsReliable = record { reads = λ a s. refl; writes = λ a v s. refl }

abbrev off : Recorded ℕ
off = record { inner = 0; log = write 0x3070 0xffffffff ∷ [] }

abbrev status_command : List ℕ
status_command = 5 ∷ 0 ∷ []

abbrev answered : List ℕ
answered = 0xa5 ∷ 0xa5 ∷ []

transfer_sends_example :
    let (r, s') = transfer (on_record quick_bus 0x3000 1) status_command off in
    (sent quick_bus 0x3000 1 s' ≡ queued status_command [])
    × (length answered ≡ length status_command)
    × All (λ b. b < 256) answered
    × (1 ≤ length status_command)
    × (length status_command ≤ 256)
unfolding transfer clear_interrupts fifo_loop reset_fifos poll_loop receive validate_offset read32
    write32 ◌>>=◌ for_each clock_now written
transfer_sends_example = transfer_sends quick_bus 0x3000 1 status_command answered off refl

transfer_deselects_example :
    Deselected quick_bus 0x3000 1 (transfer (on_record quick_bus 0x3000 1) status_command off).1
unfolding last_written transfer clear_interrupts fifo_loop reset_fifos poll_loop receive
    validate_offset read32 write32 ◌>>=◌ for_each clock_now written
transfer_deselects_example =
    transfer_deselects quick_bus 0x3000 1 quick_bus-IsReliable (omega arith) status_command off refl
      (λ e. cc)

axi_quad_spi_deselects_example :
    let (r, s') = axi_quad_spi (recorded quick_bus) 0x3000 (pos 1) off in
    (on_record quick_bus 0x3000 1 ≡ on_record quick_bus 0x3000 1) × Deselected quick_bus 0x3000 1 s'
unfolding axi_quad_spi ip_driver_lite prime_startup_clock reset drain on_throw clear_interrupts
    fifo_loop reset_fifos validate_offset read32 write32 ◌>>=◌ for_each clock_now sleep settle
axi_quad_spi_deselects_example =
    axi_quad_spi_deselects quick_bus quick_bus-IsReliable 0x3000 (pos 1) off
      (on_record quick_bus 0x3000 1) (omega arith) refl
