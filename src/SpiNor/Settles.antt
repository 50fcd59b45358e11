-- ===== src/SpiNor/Settles.antt =====
-- The state of the flash after `waitReady`, `eraseSector` and `program`.
use mrs_fpga_toolkit.Base.{
  ℕ, zero, suc, ◌+◌, ◌-◌, ◌%◌, ◌≤◌, ◌<◌, ◌≡◌, ◌≢◌, refl, arith, false, leb, List, [], ◌∷◌, length,
  get_or, min, String,
}
use mrs_fpga_toolkit.Base.Bits.{u64, any_bit}
use mrs_fpga_toolkit.Machine.{Outcome, ok, throws, hangs, pure, continue, ◌>>=◌}
use mrs_fpga_toolkit.Machine.Returns.{
  Returns, Then, Returns-bind, Returns-pure, Returns-throw, Returns-hang, Returns-choose,
  Returns-by, Returns-throw_if, Returns-given,
}
use mrs_fpga_toolkit.SpiNor.{
  Nor, SpiNor, Profile, spansion, micron, profiles, transfer, clock, pause, read_status,
  check_range, write_enable, ready_loop, wait_ready,
}
use mrs_fpga_toolkit.SpiNor.Blocks.{chunk_at, erase_sector, program_loop, program}
use mrs_fpga_toolkit.SpiNor.Reading.{NorFlash, encoded_bind}

module _ {S : Type 0} (nor : SpiNor S) (memory : S → ℕ → ℕ) (Idle : S → Type 0) (time : S → ℕ)
    (chip : NorFlash nor.spi nor.profile memory Idle time) where
  abbrev Any : Nor S → Type 0
  Any n = Unit

  abbrev pub IsIdle : Nor S → Type 0
  IsIdle n = Idle n.device

  -- There are rounds enough to reach the deadline.
  abbrev Enough : ℕ → ℕ → Nor S → Type 0
  Enough rounds deadline n = (0 < rounds) × (deadline < time n.device + rounds)

  sends : {P : Nor S → Type 0} (bytes : List ℕ) → Returns P (transfer nor.spi bytes) (λ r s. Any s)
  unfolding transfer
  sends bytes = record {
    at = λ s h. on (nor.spi.transfer bytes s.device).0 _ (chip.ends bytes s.device);
  }
    where
      on : (r : Outcome (List ℕ)) (n : Nor S) → r ≢ hangs → Then (λ _ s. Any s) r n
      on (ok a) n h = tt
      on (throws e) n h = tt
      on hangs n h = h refl

  -- What a status tells.
  abbrev Told : ℕ → ℕ → ℕ → Nor S → Type 0
  Told rounds deadline status n =
      Enough rounds deadline n × (any_bit status 0x01 ≡ false → IsIdle n)

  read_status-Returns :
      (rounds deadline : ℕ)
      → Returns (Enough rounds deadline) (read_status nor) (Told rounds deadline)
  unfolding read_status transfer ◌>>=◌
  read_status-Returns rounds deadline = record {
    at = λ s h.
        on (nor.spi.transfer (0x05 ∷ 0 ∷ []) s.device).0 _ s.jedec_id (chip.ends _ s.device)
          (chip.status_tells s.device) (chip.transfer_steady (0x05 ∷ 0 ∷ []) s.device) h;
  }
    where
      on :
          {before : ℕ} (r : Outcome (List ℕ)) (s' : S) (id : List ℕ)
          → r ≢ hangs
          → ((response : List ℕ)
              → r ≡ ok response
              → any_bit (get_or response 1 0) 0x01 ≡ false
              → Idle s')
          → before ≤ time s'
          → (0 < rounds) × (deadline < before + rounds)
          → let n : Nor S = record { device = s'; jedec_id = id } in
            Then
              (Told rounds deadline)
              (continue r (λ response. pure (get_or response 1 0)) n).0
              (continue r (λ response. pure (get_or response 1 0)) n).1
      on (ok response) s' id w told later h = ((h.0, omega arith), told response refl)
      on (throws e) s' id w told later h = tt
      on hangs s' id w told later h = w refl

  -- What a reading of the clock tells.
  abbrev Timed : ℕ → ℕ → ℕ → Nor S → Type 0
  Timed rounds deadline now n = (now ≡ time n.device) × (deadline < now + rounds)

  clock_after :
      (rounds deadline : ℕ) (current : ℕ) {X : Nor S → Type 0}
      → Returns
          (λ n. Told (suc rounds) deadline current n × X n)
          (clock nor.spi)
          (Timed rounds deadline)
  unfolding clock
  clock_after rounds deadline current = record {
    at = λ s h. (
      chip.now_reads s.device,
      ground (arith, chip.now_reads s.device, chip.now_ticks s.device, h.0.0),
    );
  }

  pause_after :
      (rounds deadline now interval : ℕ)
      → leb deadline now ≡ false
      → Returns (Timed rounds deadline now) (pause nor.spi interval) (λ _. Enough rounds deadline)
  unfolding pause
  pause_after rounds deadline now interval early = record {
    at = λ s h. ground (arith, chip.sleep_steady interval s.device, h, early);
  }

  pub read_status-IsIdle : Returns IsIdle (read_status nor) (λ _. IsIdle)
  unfolding read_status transfer ◌>>=◌
  read_status-IsIdle = record {
    at = λ s h.
        on (nor.spi.transfer (0x05 ∷ 0 ∷ []) s.device).0 _ s.jedec_id (chip.ends _ s.device)
          (chip.status_keeps s.device h);
  }
    where
      on :
          (r : Outcome (List ℕ)) (s' : S) (id : List ℕ)
          → r ≢ hangs
          → Idle s'
          → let n : Nor S = record { device = s'; jedec_id = id } in
            Then
              (λ _. IsIdle)
              (continue r (λ response. pure (get_or response 1 0)) n).0
              (continue r (λ response. pure (get_or response 1 0)) n).1
      on (ok response) s' id w h = h
      on (throws e) s' id w h = tt
      on hangs s' id w h = w refl

  ready_loop-Returns :
      (rounds deadline : ℕ) (operation : String) (interval : ℕ)
      → Returns
          (Enough rounds deadline)
          (ready_loop nor rounds deadline operation interval)
          (λ _ n. IsIdle n)
  unfolding ready_loop
  ready_loop-Returns zero deadline operation interval = Returns-hang (λ s h. absurd (omega arith))
  ready_loop-Returns (suc rounds) deadline operation interval =
      Returns-bind _ _ (read_status-Returns (suc rounds) deadline) (λ current.
        Returns-bind _ _ (Returns-throw_if _ _) (λ _.
          Returns-choose _ _ _
            (λ done. Returns-by _ (Returns-throw_if _ _) (λ _ s h. h.0.0.1 (ground (arith, done))))
            (λ busy. Returns-bind _ _ (clock_after rounds deadline current) (λ now.
              Returns-choose _ _ _ (λ late. Returns-throw _)
                (λ early.
                  Returns-bind _ _ (pause_after rounds deadline now interval early)
                    (λ _. ready_loop-Returns rounds deadline operation interval))))))

  started : {P : Nor S → Type 0} → Returns P (clock nor.spi) (λ start n. start ≡ time n.device)
  unfolding clock
  started = record { at = λ s h. chip.now_reads s.device }

  wait_ready-Returns :
      {P : Nor S → Type 0} (timeout : ℕ) (operation : String) (interval : ℕ)
      → Returns P (wait_ready nor timeout operation interval) (λ _ n. IsIdle n)
  unfolding wait_ready
  wait_ready-Returns timeout operation interval = Returns-bind _ _ started (λ start.
      Returns-given _ (λ s h. (tt, (omega arith, omega (arith, h))))
        (λ _. ready_loop-Returns (suc timeout) (start + timeout) operation interval))

  write_enable-Returns : {P : Nor S → Type 0} → Returns P (write_enable nor) (λ _. Any)
  unfolding write_enable read_status
  write_enable-Returns = Returns-bind _ _ (sends _) (λ _.
      Returns-bind _ _ (Returns-bind _ _ (sends _) (λ _. Returns-pure _ (λ s h. tt)))
        (λ _. Returns-by _ (Returns-throw_if _ _) (λ _ s h. h.0)))

  pub erase_sector-Returns :
      {P : Nor S → Type 0} (address : ℕ) → Returns P (erase_sector nor address) (λ _. IsIdle)
  unfolding erase_sector
  erase_sector-Returns address = Returns-bind _ _ (Returns-throw_if _ _) (λ _.
      Returns-bind _ _ write_enable-Returns (λ _.
        encoded_bind nor address _ (Returns-bind _ _ (sends _) (λ _. wait_ready-Returns _ _ _))))

  some_bytes :
      (p : Profile) (current remaining : ℕ)
      → 0 < remaining
      → 0
        < min
            (255 - (profiles p).address_bytes)
            (min ((profiles p).page_size - current % (profiles p).page_size) remaining)
  some_bytes spansion current remaining h = omega arith
  some_bytes micron current remaining h = omega arith

  program_loop-Returns :
      (rounds address : ℕ) (bytes : List ℕ) (offset : ℕ)
      → offset ≤ length bytes
      → length bytes < rounds + offset
      → Returns IsIdle (program_loop nor rounds address bytes offset) (λ _. IsIdle)
  unfolding program_loop
  program_loop-Returns zero address bytes offset inside enough =
      Returns-hang (λ s h. absurd (omega arith))
  program_loop-Returns (suc rounds) address bytes offset inside enough =
      let current = u64 (address + offset) in
      let chunk = chunk_at nor current (length bytes - offset) in
      Returns-choose _ _ _ (λ done. Returns-pure _ (λ s h. h))
        (λ more.
          let left : 0 < length bytes - offset = ground (arith, more) in
          let progress : 0 < chunk = some_bytes nor.profile current (length bytes - offset) left in
          let rest =
            program_loop-Returns rounds address bytes (offset + chunk) (omega arith)
              (omega arith) in
          Returns-bind _ _ write_enable-Returns (λ _. encoded_bind nor current _ (
            Returns-bind _ _ (sends _)
              (λ _. Returns-bind _ _ (wait_ready-Returns _ _ _) (λ _. rest)))))

  pub program-Returns :
      (address : ℕ) (bytes : List ℕ) → Returns IsIdle (program nor address bytes) (λ _. IsIdle)
  unfolding program check_range
  program-Returns address bytes = Returns-bind _ _ (Returns-throw_if _ _) (λ _.
      Returns-given _ (λ s h. (tt, h.0))
        (λ _.
          program_loop-Returns (suc (length bytes)) address bytes 0 (omega arith) (omega arith)))
