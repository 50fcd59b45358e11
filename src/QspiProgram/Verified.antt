-- ===== src/QspiProgram/Verified.antt =====
-- What is in the flash after `programAndVerify` of fpgactl/src/qspi.cpp.
use mrs_fpga_toolkit.Base.{
  ℕ, zero, suc, ◌+◌, ◌^◌, ◌≤◌, ◌<◌, ◌≡◌, ◌≢◌, refl, sym, ap, ◌∙◌, arith, Bool, true, false, List,
  [], ◌∷◌, length,
}
use mrs_fpga_toolkit.Machine.{M, ⊤, Outcome, ok, throws, hangs, when, ◌>>=◌}
use mrs_fpga_toolkit.Machine.Returns.{
  Returns, Then, Returns-bind, Returns-pure, Returns-hang, Returns-choose, Returns-by,
  Returns-throw_if,
}
use mrs_fpga_toolkit.SpiNor.{
  Nor, SpiNor, Profile, spansion, micron, profiles, profile_of, check_range,
}
use mrs_fpga_toolkit.SpiNor.Blocks.{read}
use mrs_fpga_toolkit.SpiNor.Reading.{NorFlash, read-Returns, cells}
use mrs_fpga_toolkit.SpiNor.Settles.{
  IsIdle, read_status-IsIdle, erase_sector-Returns, program-Returns,
}
use mrs_fpga_toolkit.QspiProgram.{
  same_bytes, require_writable, page_loop, write_sector, sector_loop, program_and_verify,
}

same_bytes-equal : (xs ys : List ℕ) → same_bytes xs ys ≡ true → xs ≡ ys
unfolding same_bytes
same_bytes-equal [] [] h = refl
same_bytes-equal [] (y ∷ ys) h = absurd (cc)
same_bytes-equal (x ∷ xs) [] h = absurd (cc)
same_bytes-equal (x ∷ xs) (y ∷ ys) h = ground (arith, same_bytes-equal xs ys)

paged : (p : Profile) → 0 < (profiles p).page_size
paged spansion = omega arith
paged micron = omega arith

module _ {S : Type 0} (nor : SpiNor S) (memory : S → ℕ → ℕ) (Idle : S → Type 0) (time : S → ℕ)
    (chip : NorFlash nor.spi nor.profile memory Idle time) (fits : nor.capacity ≤ 2 ^ 32) where
  abbrev Calm : Nor S → Type 0
  Calm = IsIdle nor memory Idle time chip

  read-Calm : (address size : ℕ) → Returns Calm (read nor address size) (λ _. Calm)
  read-Calm address size = record {
    at = λ s h.
        (Returns-by _ (read-Returns nor memory Idle time chip (memory s.device) address size fits)
            (λ _ s' k. k.1.0)).at
          s (h, refl);
  }

  when-Calm :
      (b : Bool) (m : M (Nor S) ⊤)
      → Returns Calm m (λ _. Calm)
      → Returns Calm (when b m) (λ _. Calm)
  unfolding ◌>>=◌
  when-Calm true m k = k
  when-Calm false m k = record { at = λ s h. h }

  require_writable-Calm : Returns Calm (require_writable nor) (λ _. Calm)
  unfolding require_writable
  require_writable-Calm = Returns-bind _ _ (read_status-IsIdle nor memory Idle time chip) (λ _.
      Returns-bind _ _ (Returns-throw_if _ _)
        (λ _. Returns-by _ (Returns-throw_if _ _) (λ _ s h. h.0.0)))

  page_loop-Calm :
      (rounds address : ℕ) (desired : List ℕ) (page : ℕ)
      → 0 < rounds
      → length desired < rounds + page
      → Returns Calm (page_loop nor rounds address desired page) (λ _. Calm)
  unfolding page_loop
  page_loop-Calm zero address desired page some enough = Returns-hang (λ s h. absurd (omega arith))
  page_loop-Calm (suc rounds) address desired page some enough =
      let size = (profile_of nor).page_size in
      Returns-choose _ _ _ (λ done. Returns-pure _ (λ s h. h))
        (λ more.
          let rest =
            page_loop-Calm rounds address desired (page + size) (ground (arith, more))
              (omega (arith, paged nor.profile)) in
          Returns-bind _ _ (when-Calm _ _ (program-Returns nor memory Idle time chip _ _))
            (λ _. rest))

  pages-Calm :
      (address : ℕ) (desired : List ℕ)
      → Returns Calm (page_loop nor (suc (length desired)) address desired 0) (λ _. Calm)
  pages-Calm address desired =
      page_loop-Calm (suc (length desired)) address desired 0 (omega arith) (omega arith)

  write_sector-Calm :
      (image : List ℕ) (offset : ℕ) (rewrite_all : Bool) (sector : ℕ)
      → Returns Calm (write_sector nor image offset rewrite_all sector) (λ _. Calm)
  unfolding write_sector
  write_sector-Calm image offset rewrite_all sector =
      Returns-bind _ _ (Returns-choose _ _ _ (λ e. Returns-pure _ (λ s h. h)) (λ e. read-Calm _ _))
        (λ current.
          Returns-choose _ _ _ (λ same. Returns-pure _ (λ s h. h))
            (λ differs.
              Returns-bind _ _ (erase_sector-Returns nor memory Idle time chip _)
                (λ _. pages-Calm _ _)))

  sector_loop-Calm :
      (image : List ℕ) (offset : ℕ) (rewrite_all : Bool) (count sector : ℕ)
      → Returns Calm (sector_loop nor image offset rewrite_all count sector) (λ _. Calm)
  unfolding sector_loop
  sector_loop-Calm image offset rewrite_all zero sector = Returns-pure _ (λ s h. h)
  sector_loop-Calm image offset rewrite_all (suc count) sector =
      Returns-bind _ _ (write_sector-Calm image offset rewrite_all sector)
        (λ _. sector_loop-Calm image offset rewrite_all count (suc sector))

  -- What a read returns is in the flash afterwards, too.
  read_back :
      (offset size : ℕ)
      → Returns Calm
          (read nor offset size)
          (λ actual n. actual ≡ cells (memory n.device) offset size)
  read_back offset size = record {
    at = λ s h.
        (Returns-by _ (read-Returns nor memory Idle time chip (memory s.device) offset size fits)
            (λ _ s' k. k.0 ∙ ap (λ m. cells m offset size) (sym k.1.1))).at
          s (h, refl);
  }

  stored :
      (image : List ℕ) (offset : ℕ) (rewrite_all : Bool)
      → Returns Calm
          (program_and_verify nor image offset rewrite_all)
          (λ _ n. cells (memory n.device) offset (length image) ≡ image)
  unfolding program_and_verify check_range
  stored image offset rewrite_all =
      Returns-bind _ _ (Returns-by _ (Returns-throw_if _ _) (λ _ s h. h.0)) (λ _.
        Returns-bind _ _ require_writable-Calm (λ _.
          Returns-bind _ _ (sector_loop-Calm _ _ _ _ _) (λ _.
            Returns-bind _ _ (read_back offset (length image)) (λ actual.
              Returns-by _ (Returns-throw_if _ _)
                (λ _ s h. sym h.0 ∙ same_bytes-equal actual image (ground (arith, h.1)))))))

  -- From an idle flash, whatever the image, its place and the mode: programming returns or throws, and if it
  -- returns then the flash holds exactly the image at its place. The flash obeys its data sheet, the clock ticks, and the
  -- capacity is at most 2 ^ 32.
  pub program_and_verify_stores :
      (image : List ℕ) (offset : ℕ) (rewrite_all : Bool) (n : Nor S)
      → Idle n.device
      → let (r, n') = program_and_verify nor image offset rewrite_all n in
        (r ≢ hangs) × (r ≡ ok tt → cells (memory n'.device) offset (length image) ≡ image)
  program_and_verify_stores image offset rewrite_all n idle =
      on (program_and_verify nor image offset rewrite_all n).0
        (program_and_verify nor image offset rewrite_all n).1
        ((stored image offset rewrite_all).at n idle)
    where
      on :
          (r : Outcome ⊤) (n' : Nor S)
          → Then (λ _ n. cells (memory n.device) offset (length image) ≡ image) r n'
          → (r ≢ hangs) × (r ≡ ok tt → cells (memory n'.device) offset (length image) ≡ image)
      on (ok tt) n' h = (λ e. cc, λ e. h)
      on (throws x) n' h = (λ e. cc, λ e. absurd cc)
      on hangs n' h = absurd h
