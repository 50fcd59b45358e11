-- ===== src/IpDriverLite/Stored.antt =====
-- Single register accesses over plain storage.
use mrs_fpga_toolkit.Base.{ℕ, ◌+◌, ◌<◌, ◌≡◌, arith, ◌==◌, if◌then◌else◌}
use mrs_fpga_toolkit.Base.Bits.{u32}
use mrs_fpga_toolkit.Machine.{ok, ◌>>=◌, ◌>>◌}
use mrs_fpga_toolkit.Machine.RegisterFile.{IsRegisterFile}
use mrs_fpga_toolkit.IpDriverLite.{IpDriverLite, read32, write32, validate_offset}
use mrs_fpga_toolkit.IpDriverLite.Bounds.{validate_offset_iff}

module _ {S : Type 0} (d : IpDriverLite S) {cell : S → ℕ → ℕ}
    (file : IsRegisterFile d.registers cell) where
  -- What a read of one register returns after a write of another, or of the same.
  pub read32-write32 :
      (o p value : ℕ) (s : S)
      → o < 0x100000000
      → p < 0x100000000
      → validate_offset d o 4 ≡ ok tt
      → validate_offset d p 4 ≡ ok tt
      → ((write32 d o value >> read32 d p) s).0 ≡ (if o == p then ok value else (read32 d p s).0)
  unfolding read32 write32 ◌>>=◌
  read32-write32 o p value s small small' passed passed' =
      let a = u32 (d.base_address + o) in
      let b = u32 (d.base_address + p) in
      let s1 = (d.registers.write_reg a value s).1 in
      let h = (validate_offset_iff d o small).0 passed in
      let k = (validate_offset_iff d p small').0 passed' in
      ground (
        arith,
        file.write_ok a value s,
        file.write_stores a value b s,
        file.read_ok b s1,
        file.read_ok b s,
      )
