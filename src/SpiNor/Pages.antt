-- ===== src/SpiNor/Pages.antt =====
-- The commands that `SpiNor::program` sends.
use mrs_fpga_toolkit.Base.{
  ℕ, zero, suc, ◌+◌, ◌-◌, ◌*◌, ◌^◌, ◌%◌, ◌≤◌, ◌<◌, ◌≡◌, refl, ap, ◌∙◌, arith, Bool, true, false,
  ltb, String, List, [], ◌∷◌, ◌++◌, length, take, drop, get_or, All, take-append, length-append,
  length-take,
}
use native.Mathlib.Nat.{mod-lt}
use mrs_fpga_toolkit.Base.Bits.{u64}
use mrs_fpga_toolkit.Machine.{M, pure, throw, choose, out_of_range, ◌>>=◌}
use mrs_fpga_toolkit.Machine.Keeps.{Keeps, keeps_rules, Keeps-bind, Keeps-choose, Keeps-pure}
use mrs_fpga_toolkit.SpiNor.{
  Spi, Nor, SpiNor, Profile, spansion, micron, profiles, address_bytes_of, transfer, clock, pause,
  read_status, check_range, encode_address, write_enable, ready_loop, wait_ready,
}
use mrs_fpga_toolkit.SpiNor.Blocks.{chunk_at, program_loop, program}
use mrs_fpga_toolkit.SpiNor.Address.{decoded, encoded_lem}

-- A link that also keeps the commands sent over it, the newest first.
pub record Logged (S : Type 0) : Type 0 where
  pub inner : S
  pub log : List (List ℕ)

abbrev pub logged : {S : Type 0} → Spi S → Spi (Logged S)
logged spi = record {
  transfer = λ bytes s.
      let (r, s') = spi.transfer bytes s.inner in (r, record { inner = s'; log = bytes ∷ s.log });
  now = λ s. let (t, s') = spi.now s.inner in (t, record { inner = s'; log = s.log });
  sleep_for = λ ns s. record { inner = spi.sleep_for ns s.inner; log = s.log };
}

-- A command fits the FIFO; if it programs, its data ends in the page of the address that it carries.
abbrev pub IsLegal : Profile → List ℕ → Type 0
IsLegal p bytes =
    let f = profiles p in
    (length bytes ≤ 256)
    × (get_or bytes 0 0 ≡ f.program_command
        → decoded 0 (take f.address_bytes (drop 1 bytes)) % f.page_size
            + (length bytes - 1 - f.address_bytes)
          ≤ f.page_size)

enabling : (p : Profile) → IsLegal p (0x06 ∷ [])
enabling spansion = (omega arith, λ e. absurd (omega arith))
enabling micron = (omega arith, λ e. absurd (omega arith))

asking : (p : Profile) → IsLegal p (0x05 ∷ 0 ∷ [])
asking spansion = (omega arith, λ e. absurd (omega arith))
asking micron = (omega arith, λ e. absurd (omega arith))

sizes : (p : Profile) → ((profiles p).page_size ≡ 256) × ((profiles p).address_bytes ≤ 4)
sizes spansion = (refl, omega arith)
sizes micron = (refl, omega arith)

programming :
    (p : Profile) (address : ℕ) (part : List ℕ)
    → address < 2 ^ (8 * (profiles p).address_bytes)
    → length part ≤ 255 - (profiles p).address_bytes
    → address % (profiles p).page_size + length part ≤ (profiles p).page_size
    → IsLegal p (
        ((profiles p).program_command ∷ address_bytes_of (profiles p).address_bytes address)
        ++ part)
programming p address part small fits page =
    let ab = (profiles p).address_bytes in
    let bytes = address_bytes_of ab address in
    let enc = encoded_lem p address small in
    let front : take ab (bytes ++ part) ≡ bytes = take-append bytes part ab enc.1 in
    let at : decoded 0 (take ab (bytes ++ part)) ≡ address = ap (decoded 0) front ∙ enc.0 in
    let long : length (bytes ++ part) ≡ ab + length part =
      length-append bytes part ∙ ap (λ k. k + length part) enc.1 in
    let left : suc (length (bytes ++ part)) - 1 - ab ≡ length part = omega (arith, long) in
    (omega (arith, long, fits, sizes p), λ e. rw (at, left) page)

module _ {S : Type 0} (spi : Spi S) (p : Profile) (capacity : ℕ) where
  abbrev pub driver : SpiNor (Logged S)
  driver = record { spi = logged spi; profile = p; capacity = capacity }

  abbrev pub AllLegal : Nor (Logged S) → Type 0
  AllLegal n = All (IsLegal p) n.device.log

  transfer-Kept : (bytes : List ℕ) → IsLegal p bytes → Keeps AllLegal (transfer (logged spi) bytes)
  unfolding transfer
  transfer-Kept bytes legal = record { at = λ s h. (legal, h) }

  clock-Kept : Keeps AllLegal (clock (logged spi))
  unfolding clock
  clock-Kept = record { at = λ s h. h }

  pause-Kept : (ns : ℕ) → Keeps AllLegal (pause (logged spi) ns)
  unfolding pause
  pause-Kept ns = record { at = λ s h. h }

  encoded_kept :
      {B : Type 0} (address : ℕ) (f : List ℕ → M (Nor (Logged S)) B)
      → (address < 2 ^ (8 * (profiles p).address_bytes)
          → Keeps AllLegal (f (address_bytes_of (profiles p).address_bytes address)))
      → Keeps AllLegal (encode_address driver address >>= f)
  unfolding encode_address ◌>>=◌
  encoded_kept {B} address f k = on (ltb (2 ^ (8 * (profiles p).address_bytes) - 1) address) refl
    where
      bytes : List ℕ
      bytes = address_bytes_of (profiles p).address_bytes address

      on :
          (b : Bool)
          → ltb (2 ^ (8 * (profiles p).address_bytes) - 1) address ≡ b
          → Keeps AllLegal (
              choose b (throw (out_of_range "flash address exceeds command width")) (pure bytes)
              >>= f)
      on true e = record { at = λ s h. h }
      on false e = k (ground (arith, e, positive p))
        where
          positive : (p : Profile) → 0 < 2 ^ (8 * (profiles p).address_bytes)
          positive spansion = omega arith
          positive micron = omega arith

ruleset kept_rules = (keeps_rules, transfer-Kept, clock-Kept, pause-Kept, enabling, asking)

module _ {S : Type 0} (spi : Spi S) (p : Profile) (capacity : ℕ) where
  abbrev Kept : {A : Type 0} → M (Nor (Logged S)) A → Type 0
  Kept m = Keeps (AllLegal spi p capacity) m

  status-Kept : Kept (read_status (driver spi p capacity))
  unfolding read_status
  status-Kept = search kept_rules

  enable-Kept : Kept (write_enable (driver spi p capacity))
  unfolding write_enable
  enable-Kept = search (kept_rules, status-Kept)

  ready_loop-Kept :
      (rounds deadline : ℕ) (operation : String) (interval : ℕ)
      → Kept (ready_loop (driver spi p capacity) rounds deadline operation interval)
  unfolding ready_loop
  ready_loop-Kept zero deadline operation interval = search kept_rules
  ready_loop-Kept (suc rounds) deadline operation interval =
      let rest = ready_loop-Kept rounds deadline operation interval in
      search (kept_rules, status-Kept) depth 12

  wait-Kept :
      (timeout : ℕ) (operation : String) (interval : ℕ)
      → Kept (wait_ready (driver spi p capacity) timeout operation interval)
  unfolding wait_ready
  wait-Kept timeout operation interval = search (kept_rules, ready_loop-Kept)

  -- What a round sends of the data is legal.
  part-IsLegal :
      (current remaining offset : ℕ) (bytes : List ℕ)
      → current < 2 ^ (8 * (profiles p).address_bytes)
      → IsLegal p (
          ((profiles p).program_command ∷ address_bytes_of (profiles p).address_bytes current)
          ++ take (chunk_at (driver spi p capacity) current remaining) (drop offset bytes))
  part-IsLegal current remaining offset bytes small =
      let chunk = chunk_at (driver spi p capacity) current remaining in
      let long = length-take chunk (drop offset bytes) in
      let below : current % (profiles p).page_size < (profiles p).page_size =
        mod-lt current (omega (arith, sizes p)) in
      programming p current (take chunk (drop offset bytes)) small (omega (arith, long))
        (omega (arith, long, below))

  program_loop-Kept :
      (rounds address : ℕ) (bytes : List ℕ) (offset : ℕ)
      → Kept (program_loop (driver spi p capacity) rounds address bytes offset)
  unfolding program_loop
  program_loop-Kept zero address bytes offset = search kept_rules
  program_loop-Kept (suc rounds) address bytes offset =
      let current = u64 (address + offset) in
      let left = length bytes - offset in
      let rest =
        program_loop-Kept rounds address bytes
          (offset + chunk_at (driver spi p capacity) current left) in
      Keeps-choose _ _ _ (Keeps-pure tt) (
        Keeps-bind _ _ enable-Kept (λ _. encoded_kept spi p capacity current _ (λ small.
          Keeps-bind _ _
            (transfer-Kept spi p capacity _ (part-IsLegal current left offset bytes small))
            (λ _. Keeps-bind _ _ (wait-Kept _ _ _) (λ _. rest)))))

  -- Whatever the flash answers and however the call ends: each command that programming sends fits the FIFO of the
  -- controller, and each page-program command carries an address and no more data than its page has room for from there.
  pub program_keeps_pages :
      (address : ℕ) (bytes : List ℕ) → Kept (program (driver spi p capacity) address bytes)
  unfolding program check_range
  program_keeps_pages address bytes =
      Keeps-bind _ _ (search kept_rules)
        (λ _. program_loop-Kept (suc (length bytes)) address bytes 0)
