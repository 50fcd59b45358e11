-- ===== src/PcieConfig/Tests.antt =====
-- A configuration space with one capability, that of PCI Express.
use mrs_fpga_toolkit.Base.{ℕ, ◌≡◌, ◌≢◌, refl, List, ◌∷◌, ◌++◌, replicate}
use mrs_fpga_toolkit.Machine.{ok, hangs, ◌>>=◌}
use mrs_fpga_toolkit.PcieConfig.{
  PcieControl, member, little16, capability_loop, decode_pcie_control,
}
use mrs_fpga_toolkit.PcieConfig.Walk.{Found, decode_pcie_control_ends}

abbrev config : List ℕ
config = replicate 6 0 ++ 0x10 ∷ replicate 45 0 ++ 0x40 ∷ replicate 11 0 ++ 0x10 ∷ replicate 15 0

decoded :
    (decode_pcie_control config tt).0
    ≡ ok
        (record { capability_offset = 0x40; device_control = 0; mps_bytes = 128; mrrs_bytes = 128 })
unfolding decode_pcie_control capability_loop little16 member ◌>>=◌
decoded = refl

decode_pcie_control_ends_example :
    let r = (decode_pcie_control config tt).0 in
    (r ≢ hangs) × ((c : PcieControl) → r ≡ ok c → Found config c)
decode_pcie_control_ends_example = decode_pcie_control_ends config tt
