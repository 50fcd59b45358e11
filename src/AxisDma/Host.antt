-- ===== src/AxisDma/Host.antt =====
-- `Axis2Mm`: packets from the host into memory.
use mrs_fpga_toolkit.Base.{
  ℕ, ◌+◌, ◌-◌, ◌*◌, ◌^◌, ◌%◌, bit_and, Bool, not, ◌||◌, leb, ltb, ◌==◌, ◌!=◌, List, length,
}
use mrs_fpga_toolkit.Base.Bits.{any_bit}
use mrs_fpga_toolkit.Base.Int.{ℤ, pos, pos_part, is_positive}
use mrs_fpga_toolkit.Machine.{
  M, ⊤, Bus, invalid_argument, length_error, runtime_error, xdma_timeout, pure, lift, throw_if,
  clock_now, ◌>>=◌, ◌>>◌,
}
use mrs_fpga_toolkit.IpDriverLite.{
  IpDriverLite, ip_driver_lite, read32, write32, write64, wait_masked,
}
use mrs_fpga_toolkit.AxisDma.{
  AxisDmaStatus, decode_axis_dma_status, control, address_low, length_low, start_bit, busy_bit,
  XdmaStream, stream_timeout,
}

pub record Axis2Mm (S : Type 0) : Type 0 where
  pub lite : IpDriverLite S
  pub stream : XdmaStream S
  pub transport_beat_bytes : ℕ

pub record Axis2MmStatus : Type 0 where
  pub common : AxisDmaStatus
  pub tlast_synchronized : Bool
  pub decode_error : Bool
  pub slave_error : Bool
  pub overflow_error : Bool
  pub abort_in_progress : Bool

unfoldable pub axis2mm : {S : Type 0} → Bus S → XdmaStream S → ℕ → ℕ → M S (Axis2Mm S)
axis2mm bus stream base beat = do
  lite ← lift (ip_driver_lite bus base 0x20)
  throw_if (not stream.has_h2c) (invalid_argument "axis2mm requires an open H2C stream")
  throw_if (beat == 0 || bit_and beat 0x3 != 0)
      (invalid_argument "axis2mm transport beat must be a positive multiple of 4 bytes")
  pure record { lite = lite; stream = stream; transport_beat_bytes = beat }

unfoldable pub decode_axis2mm_status : ℕ → Axis2MmStatus
decode_axis2mm_status raw = record {
  common = decode_axis_dma_status raw;
  tlast_synchronized = not (any_bit raw (2 ^ 26));
  decode_error = any_bit raw (2 ^ 25);
  slave_error = any_bit raw (2 ^ 24);
  overflow_error = any_bit raw (2 ^ 23);
  abort_in_progress = any_bit raw (2 ^ 22);
}

-- The condition under which `write` throws after the transfer.
abbrev pub is_failure : Axis2MmStatus → Bool
is_failure s =
    s.common.error
    || not s.common.complete
    || not s.tlast_synchronized
    || s.decode_error
    || s.slave_error
    || s.overflow_error
    || s.abort_in_progress

module _ {S : Type 0} (d : Axis2Mm S) where
  unfoldable pub status : M S Axis2MmStatus
  status = do raw ← read32 d.lite control; pure (decode_axis2mm_status raw)

  unfoldable pub remaining_milliseconds : ℕ → M S ℕ
  remaining_milliseconds deadline = do
    now ← clock_now d.lite.registers
    throw_if (leb deadline now)
        (xdma_timeout "axis2mm deadline expired before the H2C write started")
    pure (stream_timeout (deadline - now))

  unfoldable pub write : ℕ → List ℕ → ℤ → M S ⊤
  write address data_bytes timeout = do
    let byte_count = length data_bytes
    throw_if (not (is_positive timeout)) (invalid_argument "axis2mm timeout must be positive")
    throw_if (byte_count == 0 || byte_count % d.transport_beat_bytes != 0)
        (invalid_argument "axis2mm byte count must be nonzero and aligned to the transport beat")
    throw_if (ltb 0xffffffff byte_count)
        (length_error "axis2mm transfer exceeds its 32-bit byte-count register")
    begin ← clock_now d.lite.registers
    let deadline = begin + pos_part timeout * 1000000
    write64 d.lite address_low address
    write64 d.lite length_low byte_count
    write32 d.lite control start_bit
    left ← remaining_milliseconds deadline
    d.stream.write_h2c data_bytes left
    done ← wait_masked d.lite control busy_bit 0 deadline (pos 1000)
    throw_if (not done.reached)
        (xdma_timeout "axis2mm did not complete before its transfer deadline")
    final_status ← status
    throw_if (is_failure final_status)
        (runtime_error "axis2mm completed with an error, incomplete packet, or invalid status")
