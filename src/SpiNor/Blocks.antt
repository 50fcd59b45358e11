-- ===== src/SpiNor/Blocks.antt =====
-- Reading, erasing and programming ranges: `SpiNor::read`, `eraseSector`, `program`.
-- A loop has a round for each byte and one more: every round handles at least one byte, or the loop
-- makes no progress and hangs.
use mrs_fpga_toolkit.Base.{
  ℕ, zero, suc, ◌+◌, ◌-◌, ◌%◌, ltb, not, ◌!=◌, List, [], ◌∷◌, ◌++◌, length, take, drop, replicate,
  min,
}
use mrs_fpga_toolkit.Base.Bits.{u64}
use mrs_fpga_toolkit.Machine.{M, ⊤, invalid_argument, pure, throw_if, choose, hang, ◌>>=◌, ◌>>◌}
use mrs_fpga_toolkit.AxiQuadSpi.{fifo_depth}
use mrs_fpga_toolkit.SpiNor.{
  Nor, SpiNor, profile_of, transfer, check_range, encode_address, write_enable, wait_ready,
}

module _ {S : Type 0} (nor : SpiNor S) where
  abbrev pub maximum_data : ℕ
  maximum_data = fifo_depth - 1 - (profile_of nor).address_bytes

  unfoldable pub read_loop : ℕ → ℕ → ℕ → List ℕ → M (Nor S) (List ℕ)
  read_loop zero address size output = hang
  read_loop (suc rounds) address size output =
      choose (not (ltb (length output) size)) (pure output) do
        let chunk = min maximum_data (size - length output)
        encoded ← encode_address nor (u64 (address + length output))
        let header = (profile_of nor).read_command ∷ encoded
        response ← transfer nor.spi (header ++ replicate chunk 0)
        read_loop rounds address size (output ++ drop (length header) response)

  unfoldable pub read : ℕ → ℕ → M (Nor S) (List ℕ)
  read address size = do check_range nor address size; read_loop (suc size) address size []

  unfoldable pub erase_sector : ℕ → M (Nor S) ⊤
  erase_sector address = do
    throw_if (address % (profile_of nor).erase_size != 0)
        (invalid_argument "flash erase address is not sector aligned")
    write_enable nor
    encoded ← encode_address nor address
    ignored ← transfer nor.spi ((profile_of nor).erase_command ∷ encoded)
    wait_ready nor 180000000000 "flash sector erase" 2000000

  -- The bytes that a round at `current` programs of `remaining`.
  abbrev pub chunk_at : ℕ → ℕ → ℕ
  chunk_at current remaining =
      let page_remaining = (profile_of nor).page_size - current % (profile_of nor).page_size in
      min maximum_data (min page_remaining remaining)

  unfoldable pub program_loop : ℕ → ℕ → List ℕ → ℕ → M (Nor S) ⊤
  program_loop zero address data_bytes offset = hang
  program_loop (suc rounds) address data_bytes offset =
      choose (not (ltb offset (length data_bytes))) (pure tt) do
        let current = u64 (address + offset)
        let chunk = chunk_at current (length data_bytes - offset)
        write_enable nor
        encoded ← encode_address nor current
        ignored ←
            transfer nor.spi
              (((profile_of nor).program_command ∷ encoded) ++ take chunk (drop offset data_bytes))
        wait_ready nor 5000000000 "flash page program" 100000
        program_loop rounds address data_bytes (offset + chunk)

  unfoldable pub program : ℕ → List ℕ → M (Nor S) ⊤
  program address data_bytes = do
    check_range nor address (length data_bytes)
    program_loop (suc (length data_bytes)) address data_bytes 0
