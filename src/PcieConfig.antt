-- ===== src/PcieConfig.antt =====
-- PCI configuration space: `little16` and `decodePcieControl` of fpgactl/src/pcie.cpp.
pub mod Walk
mod Tests
use mrs_fpga_toolkit.Base.{
  ℕ, zero, suc, ◌+◌, ◌*◌, ◌^◌, ◌/◌, bit_and, bit_or, Bool, false, not, ◌||◌, ltb, ◌==◌, List, [],
  ◌∷◌, length, get_or,
}
use mrs_fpga_toolkit.Base.Bits.{any_bit}
use mrs_fpga_toolkit.Machine.{
  M, runtime_error, status_error, pure, throw, throw_if, choose, hang, ◌>>=◌, ◌>>◌,
}

pub record PcieControl : Type 0 where
  pub capability_offset : ℕ
  pub device_control : ℕ
  pub mps_bytes : ℕ
  pub mrrs_bytes : ℕ

-- `visited` as the list of what has been inserted.
unfoldable pub member : ℕ → List ℕ → Bool
member p [] = false
member p (q ∷ rest) = let later = member p rest in p == q || later

module _ {S : Type 0} where
  unfoldable pub little16 : List ℕ → ℕ → M S ℕ
  little16 bytes offset = do
    throw_if (ltb (length bytes) (offset + 2))
        (runtime_error "PCI configuration space is truncated")
    pure (bit_or (get_or bytes offset 0) (get_or bytes (offset + 1) 0 * 2 ^ 8))

  unfoldable pub capability_loop : ℕ → List ℕ → ℕ → List ℕ → M S PcieControl
  capability_loop zero config pointer visited = hang
  capability_loop (suc rounds) config pointer visited =
      choose (pointer == 0) (throw (runtime_error "PCI Express capability was not found")) do
        throw_if (ltb (length config) (pointer + 2)) (status_error pointer)
        throw_if (member pointer visited) (runtime_error "malformed PCI capability list")
        choose (get_or config pointer 0 == 0x10)
            (do
              control ← little16 config (pointer + 8)
              pure record {
                capability_offset = pointer;
                device_control = control;
                mps_bytes = 128 * 2 ^ bit_and (control / 2 ^ 5) 0x7;
                mrrs_bytes = 128 * 2 ^ bit_and (control / 2 ^ 12) 0x7;
              })
            (capability_loop rounds config (bit_and (get_or config (pointer + 1) 0) 0xfc)
              (pointer ∷ visited))

  -- There are 64 possible pointers, and a round for each of them, for the repetition that is found,
  -- and for the end.
  unfoldable pub decode_pcie_control : List ℕ → M S PcieControl
  decode_pcie_control config = do
    throw_if (ltb (length config) 0x40)
        (runtime_error "PCI endpoint has no readable conventional capability list")
    status ← little16 config 0x06
    throw_if (not (any_bit status 0x10))
        (runtime_error "PCI endpoint has no readable conventional capability list")
    capability_loop 66 config (bit_and (get_or config 0x34 0) 0xfc) []
