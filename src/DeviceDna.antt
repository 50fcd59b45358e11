-- ===== src/DeviceDna.antt =====
-- The Device DNA register of dev/src/ip_drivers/device_dna.cpp and the XADC samples of xadc.cpp.
-- The conversion of a sample to degrees or volts is in floating point: see `Units` of the board command.
use mrs_fpga_toolkit.Base.{ℕ, ◌/◌, ◌^◌, bit_and}
use mrs_fpga_toolkit.Machine.{M, Bus, Outcome}
use mrs_fpga_toolkit.IpDriverLite.{IpDriverLite, ip_driver_lite, read64_at}

unfoldable pub device_dna : {S : Type 0} → Bus S → ℕ → Outcome (IpDriverLite S)
device_dna bus base = ip_driver_lite bus base 0x0c

unfoldable pub value : {S : Type 0} → IpDriverLite S → M S ℕ
value d = read64_at d 0x00 0x08

unfoldable pub sample : ℕ → ℕ
sample raw = bit_and (raw / 2 ^ 4) 0x0fff
