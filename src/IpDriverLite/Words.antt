-- ===== src/IpDriverLite/Words.antt =====
-- 64-bit registers as two 32-bit ones.
use mrs_fpga_toolkit.Base.{ℕ, ◌+◌, ◌/◌, ◌^◌, ◌<◌, ◌≡◌, ◌≢◌, arith}
use mrs_fpga_toolkit.Base.Bits.{u32, bit_or_join}
use mrs_fpga_toolkit.Machine.{ok, ◌>>=◌, ◌>>◌}
use mrs_fpga_toolkit.Machine.RegisterFile.{IsRegisterFile}
use mrs_fpga_toolkit.IpDriverLite.{
  IpDriverLite, validate_offset, read32, write32, join64, read64_at, write64_at,
}
use mrs_fpga_toolkit.IpDriverLite.Bounds.{validate_offset_iff}

-- The two halves of a 64-bit value make it up again.
pub join64-split : (value : ℕ) → value < 2 ^ 64 → join64 (u32 (value / 2 ^ 32)) (u32 value) ≡ value
join64-split value h =
    omega (arith, bit_or_join 32 (u32 (value / 2 ^ 32)) (u32 value) (omega arith))

-- Over plain storage, `read64` gives back what `write64` wrote, at any two distinct registers that
-- pass the checks.
pub read64-write64 :
    {S : Type 0} (d : IpDriverLite S) {cell : S → ℕ → ℕ} (low high value : ℕ) (s : S)
    → IsRegisterFile d.registers cell
    → validate_offset d low 4 ≡ ok tt
    → validate_offset d high 4 ≡ ok tt
    → low < 0x100000000
    → high < 0x100000000
    → low ≢ high
    → value < 2 ^ 64
    → ((write64_at d low high value >> read64_at d low high) s).0 ≡ ok value
unfolding read64_at write64_at read32 write32 ◌>>=◌
read64-write64 d low high value s file pl ph l h ne small =
    let a = u32 (d.base_address + low) in
    let b = u32 (d.base_address + high) in
    let s1 = (d.registers.write_reg a (u32 value) s).1 in
    let s2 = (d.registers.write_reg b (u32 (value / 2 ^ 32)) s1).1 in
    let s3 = (d.registers.read_reg a s2).1 in
    let passed = (validate_offset_iff d low l).0 pl in
    let passed' = (validate_offset_iff d high h).0 ph in
    ground (
      arith,
      file.write_ok a (u32 value) s,
      file.write_ok b (u32 (value / 2 ^ 32)) s1,
      file.read_ok a s2,
      file.read_ok b s3,
      file.read_keeps a b s2,
      file.write_stores a (u32 value) a s,
      file.write_stores b (u32 (value / 2 ^ 32)) a s1,
      file.write_stores b (u32 (value / 2 ^ 32)) b s1,
      join64-split value small,
    )
