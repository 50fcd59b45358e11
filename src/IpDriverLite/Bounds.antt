-- ===== src/IpDriverLite/Bounds.antt =====
-- `IpDriverLite::validateOffset` and the constructor: which offsets and windows pass.
use mrs_fpga_toolkit.Base.{ℕ, ◌+◌, ◌%◌, ◌≤◌, ◌<◌, ◌≡◌, ◌↔◌, arith}
use mrs_fpga_toolkit.Base.Bits.{bit_and_three}
use mrs_fpga_toolkit.Machine.{ok}
use mrs_fpga_toolkit.IpDriverLite.{IpDriverLite, validate_offset}

-- What the constructor establishes.
pub record IsValid {S : Type 0} (d : IpDriverLite S) : Type 0 where
  pub base_aligned : d.base_address % 4 ≡ 0
  pub span_aligned : d.register_span % 4 ≡ 0
  pub span_positive : 4 ≤ d.register_span

-- An offset passes exactly when it is aligned, its register lies inside the span, and the absolute
-- address fits 32 bits.
pub validate_offset_iff :
    {S : Type 0} (d : IpDriverLite S) (offset : ℕ)
    → offset < 0x100000000
    → (validate_offset d offset 4 ≡ ok tt) ↔ (
        (offset % 4 ≡ 0) × (offset + 4 ≤ d.register_span) × (d.base_address + offset < 0x100000000))
unfolding validate_offset
validate_offset_iff d offset h =
    (λ e. ground (arith, bit_and_three offset), λ v. ground (arith, bit_and_three offset))
