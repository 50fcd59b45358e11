-- ===== src/AxiGpio/Interrupts.antt =====
-- Clearing interrupts where IPISR toggles on write, and which masks are accepted.
use mrs_fpga_toolkit.Base.{
  ℕ, ◌+◌, ◌%◌, ◌^◌, ◌<◌, ◌≤◌, ◌≡◌, ◌≢◌, ◌↔◌, arith, ap, ◌∙◌, ◌==◌, if◌then◌else◌, bit_and, bit_xor,
  Bool, true, false,
}
use mrs_fpga_toolkit.Base.Bits.{
  u32, bit_at, bit_at-lt, bit_at-bit_and, bit_at-bit_xor, bit_at-zero, bit_and_low,
  bit_and-complement,
}
use mrs_fpga_toolkit.Machine.{ok, throws, invalid_argument, ◌>>=◌, Bus}
use mrs_fpga_toolkit.IpDriverLite.{read32, write32, validate_offset}
use mrs_fpga_toolkit.AxiGpio.{
  AxiGpio, supported, validate_interrupt_mask, clear_interrupts, interrupt_status_register,
}

-- What PG144 says of the interrupt status register at `isr`: a read leaves it, and a write toggles
-- the bits written as one. No access of it changes another register.
pub record TogglesOnWrite {S : Type 0} (bus : Bus S) (isr : ℕ) (cell : S → ℕ → ℕ) : Type 0 where
  pub read_ok : (s : S) → (bus.read_reg isr s).0 ≡ ok (cell s isr)
  pub read_keeps : (b : ℕ) (s : S) → cell (bus.read_reg isr s).1 b ≡ cell s b
  pub write_ok : (v : ℕ) (s : S) → (bus.write_reg isr v s).0 ≡ ok tt
  pub write_toggles :
      (v b : ℕ) (s : S)
      → cell (bus.write_reg isr v s).1 b ≡ (if isr == b then bit_xor (cell s b) v else cell s b)

abbrev channel_count : Bool → ℕ
channel_count dual = if dual then 2 else 1

masked :
    (dual : Bool) (mask : ℕ) → bit_and mask (if dual then 3 else 1) ≡ mask % 2 ^ channel_count dual
masked true mask = bit_and_low 2 mask
masked false mask = bit_and_low 1 mask

fits :
    (dual : Bool) (mask : ℕ)
    → mask < 2 ^ channel_count dual
    → (mask < 2 ^ 32) × (mask % 2 ^ channel_count dual ≡ mask)
fits true mask h = omega arith
fits false mask h = omega arith

fits_back :
    (dual : Bool) (mask : ℕ) → mask % 2 ^ channel_count dual ≡ mask → mask < 2 ^ channel_count dual
fits_back true mask h = omega arith
fits_back false mask h = omega arith

supported-lt : {S : Type 0} (g : AxiGpio S) → supported g < 2 ^ 32
supported-lt g = ground arith

-- A mask that selects channels of the instance is taken over as it is.
accepted :
    {S : Type 0} (g : AxiGpio S) (mask : ℕ)
    → mask < 2 ^ channel_count g.dual_channel
    → (bit_and mask (supported g) ≡ mask) × (validate_interrupt_mask g mask ≡ ok mask)
unfolding validate_interrupt_mask
accepted g mask small =
    let (h, e) = fits g.dual_channel mask small in
    let kept : bit_and mask (supported g) ≡ mask = masked g.dual_channel mask ∙ e in
    (kept, ground (arith, kept, bit_and-complement 32 mask (supported g) h (supported-lt g)))

-- A mask of 32 bits passes, unchanged, exactly when it selects channels that the instance has; any other is refused with the
-- exception of the source, and never cut to the channels that are there.
pub validate_interrupt_mask_iff :
    {S : Type 0} (g : AxiGpio S) (mask : ℕ)
    → mask < 2 ^ 32
    → ((validate_interrupt_mask g mask ≡ ok mask) ↔ (mask < 2 ^ channel_count g.dual_channel))
      × ((validate_interrupt_mask g mask
            ≡ throws (invalid_argument "AXI GPIO interrupt mask selects an unavailable channel"))
          ↔ (2 ^ channel_count g.dual_channel ≤ mask))
unfolding validate_interrupt_mask
validate_interrupt_mask_iff g mask fits32 =
    let parts = bit_and-complement 32 mask (supported g) fits32 (supported-lt g) in
    let low = masked g.dual_channel mask in
    let back = fits_back g.dual_channel mask in
    let small = accepted g mask in
    (
      (λ e. ground (arith, e, parts, low, back), λ h. (small h).1),
      (λ e. ground (arith, e, small), λ h. ground (arith, h, parts, low, back)),
    )

-- Where the status register toggles on write: clearing a mask of existing channels turns off exactly
-- its bits, never sets one that was off, and changes no other register.
pub clear_interrupts_bits :
    {S : Type 0} (g : AxiGpio S) {cell : S → ℕ → ℕ} (mask : ℕ) (s : S)
    → let isr = u32 (g.lite.base_address + interrupt_status_register) in
      let (r, s') = clear_interrupts g mask s in
      TogglesOnWrite g.lite.registers isr cell
      → validate_offset g.lite interrupt_status_register 4 ≡ ok tt
      → mask < 2 ^ channel_count g.dual_channel
      → (r ≡ ok tt)
        × ((k : ℕ)
            → bit_at k (cell s' isr) ≡ (if bit_at k mask == 1 then 0 else bit_at k (cell s isr)))
        × ((b : ℕ) → b ≢ isr → cell s' b ≡ cell s b)
unfolding clear_interrupts read32 write32 ◌>>=◌
clear_interrupts_bits g {cell} mask s toggles passed small =
    let isr = u32 (g.lite.base_address + interrupt_status_register) in
    let s1 = (g.lite.registers.read_reg isr s).1 in
    let c = cell s isr in
    let valid = accepted g mask small in
    let clear = bit_and (bit_and c (supported g)) mask in
    (
      ground (arith, valid, toggles.read_ok s, toggles.write_ok clear s1),
      λ k. ground (
        arith,
        valid,
        toggles.read_ok s,
        toggles.write_ok clear s1,
        toggles.write_toggles clear isr s1,
        toggles.read_keeps isr s,
        bit_at-bit_and k (bit_and c (supported g)) mask,
        bit_at-bit_and k c (supported g),
        bit_at-bit_and k mask (supported g),
        ap (bit_at k) valid.0,
        bit_at-bit_xor k c clear,
        bit_at-lt k c,
        bit_at-lt k mask,
        bit_at-lt k (supported g),
        bit_at-zero k,
      ),
      λ b ne. ground (
        arith,
        valid,
        toggles.read_ok s,
        toggles.write_ok clear s1,
        toggles.write_toggles clear b s1,
        toggles.read_keeps b s,
      ),
    )
