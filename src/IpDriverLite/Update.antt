-- ===== src/IpDriverLite/Update.antt =====
-- The bits that `IpDriverLite::update32` changes.
use mrs_fpga_toolkit.Base.{
  ℕ, zero, suc, ◌+◌, ◌-◌, ◌/◌, ◌^◌, ◌<◌, ◌≡◌, ◌≢◌, arith, ap, ◌∙◌, ◌==◌, if◌then◌else◌, bit_and,
}
use native.Mathlib.Nat.{pow-suc}
use mrs_fpga_toolkit.Base.Bits.{u32, not32, bit_at, bit_at-lt, bit_at-bit_and, bit_at-bit_or}
use mrs_fpga_toolkit.Machine.{ok, ◌>>=◌}
use mrs_fpga_toolkit.Machine.RegisterFile.{IsRegisterFile}
use mrs_fpga_toolkit.IpDriverLite.{
  IpDriverLite, validate_offset, read32, write32, update32, merge_bits,
}

-- The complement within `n` bits turns each of them.
bit_at-complement : (n k x : ℕ) → k < n → x < 2 ^ n → bit_at k (2 ^ n - 1 - x) ≡ 1 - bit_at k x
bit_at-complement zero k x h small = absurd (omega arith)
bit_at-complement (suc n) zero x h small = omega (arith, pow-suc 2 n)
bit_at-complement (suc n) (suc k) x h small =
    let halved : (2 ^ suc n - 1 - x) / 2 ≡ 2 ^ n - 1 - x / 2 = omega (arith, pow-suc 2 n) in
    ap (bit_at k) halved ∙ bit_at-complement n k (x / 2) (omega arith) (omega (arith, pow-suc 2 n))

pub bit_at-not32 : (k x : ℕ) → k < 32 → x < 2 ^ 32 → bit_at k (not32 x) ≡ 1 - bit_at k x
bit_at-not32 k x = bit_at-complement 32 k x

-- Under the mask the bits are those of `value`, elsewhere the old ones.
pub bit_at-merge_bits :
    (k old mask value : ℕ)
    → k < 32
    → mask < 2 ^ 32
    → bit_at k (merge_bits old mask value)
      ≡ (if bit_at k mask == 1 then bit_at k value else bit_at k old)
bit_at-merge_bits k old mask value h small = ground (
  arith,
  bit_at-bit_or k (bit_and old (not32 mask)) (bit_and value mask),
  bit_at-bit_and k old (not32 mask),
  bit_at-bit_and k value mask,
  bit_at-not32 k mask h small,
  bit_at-lt k mask,
  bit_at-lt k value,
  bit_at-lt k old,
)

-- Over plain storage, `update32` at a register that passes the checks returns what it stored there:
-- each bit is that of `value` where the mask has a one, and the old bit elsewhere. No other register
-- changes.
pub update32_bits :
    {S : Type 0} (d : IpDriverLite S) {cell : S → ℕ → ℕ} (offset mask value : ℕ) (s : S)
    → IsRegisterFile d.registers cell
    → validate_offset d offset 4 ≡ ok tt
    → mask < 2 ^ 32
    → let a = u32 (d.base_address + offset) in
      let (r, s') = update32 d offset mask value s in
      (r ≡ ok (cell s' a))
      × ((k : ℕ)
          → k < 32
          → bit_at k (cell s' a)
            ≡ (if bit_at k mask == 1 then bit_at k value else bit_at k (cell s a)))
      × ((b : ℕ) → b ≢ a → cell s' b ≡ cell s b)
unfolding update32 read32 write32 ◌>>=◌
update32_bits d {cell} offset mask value s file passed small =
    let a = u32 (d.base_address + offset) in
    let old = cell s a in
    let new = merge_bits old mask value in
    let s1 = (d.registers.read_reg a s).1 in
    (
      ground (arith, file.read_ok a s, file.write_ok a new s1, file.write_stores a new a s1),
      λ k h. ground (
        arith,
        file.read_ok a s,
        file.write_ok a new s1,
        file.write_stores a new a s1,
        bit_at-merge_bits k old mask value h small,
      ),
      λ b ne. ground (
        arith,
        file.read_ok a s,
        file.write_ok a new s1,
        file.write_stores a new b s1,
        file.read_keeps a b s,
      ),
    )
