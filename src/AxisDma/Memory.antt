-- ===== src/AxisDma/Memory.antt =====
-- `AxiMm2s`: memory to the host, in whole beats of the stream.
use mrs_fpga_toolkit.Base.{
  ℕ, zero, suc, ◌+◌, ◌-◌, ◌*◌, ◌/◌, ◌%◌, not, ◌||◌, leb, ltb, ◌==◌, ◌&&◌, if◌then◌else◌, ◌!=◌, min,
  max, List, [], ◌∷◌, ◌++◌, length, take, drop,
}
use mrs_fpga_toolkit.Base.Int.{ℤ, pos, pos_part, is_positive, is_negative}
use mrs_fpga_toolkit.Machine.{
  M, Bus, invalid_argument, length_error, runtime_error, status_error, xdma_timeout, pure, lift,
  throw_if, choose, hang, clock_now, ◌>>=◌, ◌>>◌,
}
use mrs_fpga_toolkit.IpDriverLite.{
  IpDriverLite, ip_driver_lite, read32, write32, write64, wait_masked,
}
use mrs_fpga_toolkit.AxisDma.{
  AxisDmaStatus, decode_axis_dma_status, control, address_low, length_low, start_bit, busy_bit,
  XdmaStream, stream_timeout,
}

pub record AxiMm2s (S : Type 0) : Type 0 where
  pub lite : IpDriverLite S
  pub stream : XdmaStream S
  pub transport_beat_bytes : ℕ

pub record AxiMm2sStatistics : Type 0 where
  pub logical_bytes : ℕ
  pub transport_bytes : ℕ
  pub read_calls : ℕ
  pub short_reads : ℕ
  pub smallest_read : ℕ
  pub largest_read : ℕ
  pub blocked_time : ℕ

abbrev pub size_max : ℕ
size_max = 0xffffffffffffffff

abbrev pub no_statistics : AxiMm2sStatistics
no_statistics = record {
  logical_bytes = 0;
  transport_bytes = 0;
  read_calls = 0;
  short_reads = 0;
  smallest_read = 0;
  largest_read = 0;
  blocked_time = 0;
}

unfoldable pub aximm2s : {S : Type 0} → Bus S → XdmaStream S → ℕ → ℕ → M S (AxiMm2s S)
aximm2s bus stream base beat = do
  lite ← lift (ip_driver_lite bus base 0x20)
  throw_if (not stream.has_c2h) (invalid_argument "aximm2s requires an open C2H stream")
  throw_if (ltb beat 4 || beat % 4 != 0)
      (invalid_argument "aximm2s transport beat must be a positive multiple of 32 bits")
  pure record { lite = lite; stream = stream; transport_beat_bytes = beat }

-- `((bytes + beat - 1) / beat) * beat`
unfoldable pub round_up : ℕ → ℕ → ℕ
round_up beat bytes = ((bytes + beat - 1) / beat) * beat

-- What a read of `returned` bytes, of `requested`, adds to the statistics.
abbrev pub measure : ℕ → ℕ → ℕ → AxiMm2sStatistics → AxiMm2sStatistics
measure requested returned blocked m = record m {
  short_reads = m.short_reads + (if ltb returned requested then 1 else 0);
  smallest_read = min m.smallest_read returned;
  largest_read = max m.largest_read returned;
  read_calls = m.read_calls + 1;
  blocked_time = m.blocked_time + blocked;
}

-- `std::memcpy` into words of a little-endian host.
unfoldable pub words_of : ℕ → List ℕ → List ℕ
words_of zero bytes = []
words_of (suc n) bytes = little 8 bytes ∷ words_of n (drop 8 bytes)
  where
    little : ℕ → List ℕ → ℕ
    little zero bytes = 0
    little (suc k) [] = 0
    little (suc k) (b ∷ bytes) = b + 256 * little k bytes

module _ {S : Type 0} (d : AxiMm2s S) where
  unfoldable pub status : M S AxisDmaStatus
  status = do raw ← read32 d.lite control; pure (decode_axis_dma_status raw)

  -- The collecting loop. `output` is what has been completed of the buffer; each round reads the clock.
  unfoldable pub collect :
      ℕ → ℕ → ℕ → ℕ → List ℕ → AxiMm2sStatistics → M S (List ℕ × AxiMm2sStatistics)
  collect zero deadline chunk_bytes transport_bytes output measured = hang
  collect (suc rounds) deadline chunk_bytes transport_bytes output measured =
      choose (not (ltb (length output) transport_bytes)) (pure (output, measured)) do
        now ← clock_now d.lite.registers
        throw_if (leb deadline now)
            (xdma_timeout "aximm2s deadline expired while collecting C2H data")
        let requested = min chunk_bytes (transport_bytes - length output)
        read_started ← clock_now d.lite.registers
        fragment ← d.stream.read_c2h requested (stream_timeout (deadline - now))
        read_ended ← clock_now d.lite.registers
        let blocked = read_ended - read_started
        choose (not (is_negative fragment.count) && pos_part fragment.count == 0)
            (collect rounds deadline chunk_bytes transport_bytes output
              (record measured { blocked_time = measured.blocked_time + blocked }))
            (do
              throw_if (is_negative fragment.count || ltb requested (pos_part fragment.count))
                  (runtime_error "aximm2s C2H returned an invalid fragment size")
              collect rounds deadline chunk_bytes transport_bytes
                  (output ++ take (pos_part fragment.count) fragment.bytes)
                  (measure requested (pos_part fragment.count) blocked measured))

  -- The part of `read` that follows the checks of the sizes.
  unfoldable pub run_read : ℕ → ℕ → ℕ → ℕ → ℕ → M S (List ℕ × AxiMm2sStatistics)
  run_read address byte_count transport_bytes chunk_bytes timeout = do
    begin ← clock_now d.lite.registers
    let deadline = begin + timeout * 1000000
    write64 d.lite address_low address
    write64 d.lite length_low transport_bytes
    write32 d.lite control start_bit
    let measured : AxiMm2sStatistics = record no_statistics {
      logical_bytes = byte_count;
      transport_bytes = transport_bytes;
      smallest_read = size_max;
    }
    collected ← collect (suc (timeout * 1000000)) deadline chunk_bytes transport_bytes [] measured
    done ← wait_masked d.lite control busy_bit 0 deadline (pos 1000)
    throw_if (not done.reached)
        (xdma_timeout "aximm2s did not complete before its transfer deadline")
    final_status ← status
    throw_if (final_status.error || not final_status.complete) (status_error done.final_value)
    let m = collected.1
    pure (
      take byte_count collected.0,
      record m { smallest_read = if m.read_calls == 0 then 0 else m.smallest_read },
    )

  -- The statistics are those that the caller gets where it asks for them; with an exception it gets none.
  unfoldable pub read : ℕ → ℕ → ℤ → ℕ → M S (List ℕ × AxiMm2sStatistics)
  read address byte_count timeout max_bytes_per_read = do
    let beat = d.transport_beat_bytes
    let transport_bytes = round_up beat byte_count
    throw_if (not (is_positive timeout)) (invalid_argument "aximm2s timeout must be positive")
    choose (byte_count == 0) (pure ([], no_statistics)) do
      throw_if (ltb (size_max - beat + 1) byte_count)
          (length_error "aximm2s aligned transfer size overflows")
      throw_if (ltb 0xffffffff transport_bytes)
          (length_error "aximm2s transfer exceeds its 32-bit byte-count register")
      throw_if (ltb (size_max - beat + 1) max_bytes_per_read)
          (length_error "aximm2s maximum read size overflows during alignment")
      run_read address byte_count transport_bytes (max beat (round_up beat max_bytes_per_read))
          (pos_part timeout)

  unfoldable pub read_words : ℕ → ℕ → ℤ → ℕ → M S (List ℕ × AxiMm2sStatistics)
  read_words address word_count timeout max_words_per_read = do
    throw_if (ltb (size_max / 8) word_count || ltb (size_max / 8) max_words_per_read)
        (length_error "aximm2s word count exceeds the host size range")
    answer ← read address (word_count * 8) timeout (max_words_per_read * 8)
    pure (words_of word_count answer.0, answer.1)
