-- ===== src/SpiNor/Tests.antt =====
-- The flash driver at concrete inputs.
use mrs_fpga_toolkit.Base.{ℕ, ◌+◌, ◌^◌, ◌≤◌, ◌<◌, ◌≡◌, List, [], length, All, ◌∷◌}
use mrs_fpga_toolkit.Machine.{ok, throws, out_of_range}
use mrs_fpga_toolkit.SpiNor.{Spi, Nor, SpiNor, spansion, address_bytes_of, encode_address}
use mrs_fpga_toolkit.Machine.Keeps.{Keeps}
use mrs_fpga_toolkit.SpiNor.Blocks.{program}
use mrs_fpga_toolkit.SpiNor.Pages.{driver, AllLegal, program_keeps_pages}
use mrs_fpga_toolkit.SpiNor.Address.{decoded, encode_address-decoded}

abbrev silent : Spi ℕ
silent = record {
  transfer = λ bytes s. (ok bytes, s);
  now = λ s. (s + 1, s + 1);
  sleep_for = λ ns s. s + ns;
}

abbrev small : SpiNor ℕ
small = record { spi = silent; profile = spansion; capacity = 0x1000000 }

abbrev begin : Nor ℕ
begin = record { device = 0; jedec_id = [] }

encode_address-decoded_example :
    let (r, n') = encode_address small 0x123456 begin in
    (n' ≡ begin)
    × (0x123456 < 2 ^ 24
        → (bytes : List ℕ) → r ≡ ok bytes
        → (decoded 0 bytes ≡ 0x123456) × (length bytes ≡ 3) × All (λ b. b < 256) bytes)
    × (0x123456 < 2 ^ 24 → r ≡ ok (address_bytes_of 3 0x123456))
    × (2 ^ 24 ≤ 0x123456 → r ≡ throws (out_of_range "flash address exceeds command width"))
encode_address-decoded_example = encode_address-decoded small 0x123456 begin

program_keeps_pages_example :
    Keeps
      (AllLegal silent spansion 0x1000000)
      (program (driver silent spansion 0x1000000) 0x10fe (1 ∷ 2 ∷ 3 ∷ 4 ∷ []))
program_keeps_pages_example =
    program_keeps_pages silent spansion 0x1000000 0x10fe (1 ∷ 2 ∷ 3 ∷ 4 ∷ [])
