-- ===== src/QspiProgram/Tests.antt =====
-- Programming an erased flash that answers at once.
use mrs_fpga_toolkit.Base.{
  ℕ, zero, suc, ◌+◌, ◌≡◌, ◌≢◌, refl, ap, arith, ◌==◌, if◌then◌else◌, List, [], ◌∷◌, length,
  replicate, false,
}
use mrs_fpga_toolkit.Machine.{ok, hangs}
use mrs_fpga_toolkit.SpiNor.{Spi, Nor, SpiNor, micron, address_bytes_of}
use mrs_fpga_toolkit.SpiNor.Reading.{NorFlash, cells, read_holds}
use mrs_fpga_toolkit.SpiNor.Blocks.{read}
use mrs_fpga_toolkit.QspiProgram.{program_and_verify}
use mrs_fpga_toolkit.QspiProgram.Verified.{program_and_verify_stores}

-- The status is 0, and every other answer is made of erased bytes.
abbrev answer : List ℕ → List ℕ
answer [] = []
answer (b ∷ bytes) =
    if b == 0x05 then replicate (suc (length bytes)) 0 else replicate (suc (length bytes)) 0xff

abbrev erased_spi : Spi ℕ
erased_spi = record {
  transfer = λ bytes s. (ok (answer bytes), s);
  now = λ s. (s + 1, s + 1);
  sleep_for = λ ns s. s + ns;
}

erased :
    (address n : ℕ) → replicate (length {A = ℕ} (replicate n 0)) 0xff ≡ cells (λ a. 0xff) address n
unfolding cells
erased address zero = refl
erased address (suc n) = ap (λ l. 0xff ∷ l) (erased (address + 1) n)

erased_spi-NorFlash : NorFlash erased_spi micron (λ s a. 0xff) (λ s. Unit) (λ s. s)
unfolding address_bytes_of
erased_spi-NorFlash = record {
  reads = λ address n s idle response e. (ground (arith, erased address n), refl, tt);
  status_tells = λ s response e w. tt;
  status_keeps = λ s idle. tt;
  ends = λ bytes s e. cc;
  transfer_steady = λ bytes s. omega arith;
  now_reads = λ s. refl;
  now_ticks = λ s. omega arith;
  sleep_steady = λ ns s. omega arith;
}

abbrev flash : SpiNor ℕ
flash = record { spi = erased_spi; profile = micron; capacity = 0x4000000 }

abbrev begin : Nor ℕ
begin = record { device = 0; jedec_id = [] }

program_and_verify_stores_example :
    let (r, n') = program_and_verify flash (0xff ∷ 0xff ∷ []) 0x10000 false begin in
    (r ≢ hangs) × (r ≡ ok tt → cells (λ a. 0xff) 0x10000 2 ≡ 0xff ∷ 0xff ∷ [])
program_and_verify_stores_example =
    program_and_verify_stores flash (λ s a. 0xff) (λ s. Unit) (λ s. s) erased_spi-NorFlash
      (omega arith) (0xff ∷ 0xff ∷ []) 0x10000 false begin tt

read_holds_example :
    let (r, n') = read flash 0x10000 300 begin in
    (r ≢ hangs)
    × ((bytes : List ℕ)
        → r ≡ ok bytes
        → (bytes ≡ cells (λ a. 0xff) 0x10000 300) × (length bytes ≡ 300))
read_holds_example =
    read_holds flash (λ s a. 0xff) (λ s. Unit) (λ s. s) erased_spi-NorFlash 0x10000 300 begin
      (omega arith) tt
