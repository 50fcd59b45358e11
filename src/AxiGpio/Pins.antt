-- ===== src/AxiGpio/Pins.antt =====
-- Data and direction registers of the two GPIO channels.
use mrs_fpga_toolkit.Base.{ℕ, ◌+◌, ◌%◌, ◌<◌, ◌≡◌, arith, Bool, true, false, ◌==◌, if◌then◌else◌}
use mrs_fpga_toolkit.Machine.{ok, ◌>>=◌, ◌>>◌}
use mrs_fpga_toolkit.Machine.RegisterFile.{IsRegisterFile}
use mrs_fpga_toolkit.IpDriverLite.{read32, write32, validate_offset}
use mrs_fpga_toolkit.IpDriverLite.Bounds.{validate_offset_iff}
use mrs_fpga_toolkit.IpDriverLite.Stored.{read32-write32}
use mrs_fpga_toolkit.AxiGpio.{
  AxiGpio, AxiGpioChannel, channel1, channel2, data_offset, direction_offset, read_data, write_data,
  direction, set_direction,
}

-- What the constructor builds, at an address where the whole window fits 32 bits.
pub record IsGpio {S : Type 0} (g : AxiGpio S) : Type 0 where
  pub span : g.lite.register_span ≡ 0x12c
  pub fits : g.lite.base_address + 0x12c < 0x100000000

abbrev pub Present : {S : Type 0} → AxiGpio S → AxiGpioChannel → Type 0
Present g channel1 = Unit
Present g channel2 = g.dual_channel ≡ true

abbrev pub same : AxiGpioChannel → AxiGpioChannel → Bool
same channel1 channel1 = true
same channel2 channel2 = true
same _ _ = false

passes :
    {S : Type 0} (g : AxiGpio S) (o : ℕ)
    → IsGpio g
    → o < 0x10
    → o % 4 ≡ 0
    → validate_offset g.lite o 4 ≡ ok tt
passes g o v small aligned = (validate_offset_iff g.lite o (omega arith)).1 (omega arith)

abbrev data_at : AxiGpioChannel → ℕ
data_at channel1 = 0
data_at channel2 = 8

abbrev direction_at : AxiGpioChannel → ℕ
direction_at channel1 = 4
direction_at channel2 = 12

abbrev IsOffset : ℕ → Type 0
IsOffset o = (o < 0x10) × (o % 4 ≡ 0)

bound : (c : AxiGpioChannel) → IsOffset (data_at c) × IsOffset (direction_at c)
bound channel1 = (omega arith, omega arith)
bound channel2 = (omega arith, omega arith)

-- Over plain storage: the data written to a channel is what its data reads back, and no other channel's
-- data or direction reads differently for it; so for the direction.
pub pins_independent :
    {S : Type 0} (g : AxiGpio S) {cell : S → ℕ → ℕ} (c d : AxiGpioChannel) (value : ℕ) (s : S)
    → IsRegisterFile g.lite.registers cell
    → IsGpio g
    → Present g c
    → Present g d
    → (((write_data g c value >> read_data g d) s).0
        ≡ (if same c d then ok value else (read_data g d s).0))
      × (((write_data g c value >> direction g d) s).0 ≡ (direction g d s).0)
      × (((set_direction g c value >> direction g d) s).0
          ≡ (if same c d then ok value else (direction g d s).0))
      × (((set_direction g c value >> read_data g d) s).0 ≡ (read_data g d s).0)
unfolding write_data read_data direction set_direction data_offset direction_offset ◌>>=◌
pins_independent g c d value s file v p q = (
  ground (arith, step (data_at c) (data_at d) (bound c).0 (bound d).0),
  ground (arith, step (data_at c) (direction_at d) (bound c).0 (bound d).1),
  ground (arith, step (direction_at c) (direction_at d) (bound c).1 (bound d).1),
  ground (arith, step (direction_at c) (data_at d) (bound c).1 (bound d).0),
)
  where
    step :
        (o w : ℕ)
        → IsOffset o
        → IsOffset w
        → ((write32 g.lite o value >> read32 g.lite w) s).0
          ≡ (if o == w then ok value else (read32 g.lite w s).0)
    step o w h k =
        read32-write32 g.lite file o w value s (omega arith) (omega arith) (passes g o v h.0 h.1)
          (passes g w v k.0 k.1)
