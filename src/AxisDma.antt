-- ===== src/AxisDma.antt =====
-- The streaming DMA drivers of dev/src/ip_drivers: axis_dma_common.cpp, axis2mm.cpp, aximm2s.cpp.
-- Times are in nanoseconds; a timeout is given as milliseconds.
pub mod Host
pub mod Memory
pub mod Length
mod Tests
use mrs_fpga_toolkit.Base.{
  ℕ, ◌+◌, ◌*◌, ◌^◌, ◌/◌, bit_and, Bool, true, false, not, leb, ◌==◌, min, max, List,
}
use mrs_fpga_toolkit.Base.Bits.{any_bit}
use mrs_fpga_toolkit.Base.Int.{ℤ}
use mrs_fpga_toolkit.Machine.{M, ⊤}

pub record AxisDmaStatus : Type 0 where
  pub busy : Bool
  pub error : Bool
  pub complete : Bool
  pub continuous : Bool
  pub increment : Bool
  pub fifo_depth_log2 : ℕ
  pub raw : ℕ

abbrev pub control : ℕ
control = 0x00

abbrev pub address_low : ℕ
address_low = 0x08

abbrev pub length_low : ℕ
length_low = 0x18

abbrev pub start_bit : ℕ
start_bit = 2 ^ 31

abbrev pub busy_bit : ℕ
busy_bit = 2 ^ 31

unfoldable pub decode_axis_dma_status : ℕ → AxisDmaStatus
decode_axis_dma_status raw = record {
  busy = any_bit raw (2 ^ 31);
  error = any_bit raw (2 ^ 30);
  complete = any_bit raw (2 ^ 29);
  continuous = any_bit raw (2 ^ 28);
  increment = not (any_bit raw (2 ^ 27));
  fifo_depth_log2 = bit_and (raw / 2 ^ 16) 0x1f;
  raw = raw;
}

-- What the C2H read put into its buffer, and the count that it returned.
pub record Fragment : Type 0 where
  pub count : ℤ
  pub bytes : List ℕ

-- What the drivers use of `XDMAStream`.
pub record XdmaStream (S : Type 0) : Type 0 where
  pub has_h2c : Bool
  pub has_c2h : Bool
  pub write_h2c : List ℕ → ℕ → M S ⊤
  pub read_c2h : ℕ → ℕ → M S Fragment

-- `clamp(remaining + 1, 1, INT_MAX)` in milliseconds, for a deadline that lies ahead.
abbrev pub stream_timeout : ℕ → ℕ
stream_timeout remaining = min (max (remaining / 1000000 + 1) 1) 0x7fffffff
