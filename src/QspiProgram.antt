-- ===== src/QspiProgram.antt =====
-- `requireWritable` and `programAndVerify` of fpgactl/src/qspi.cpp.
-- What the functions print, the time they measure and the digest are left out: none of it reaches
-- the flash or the outcome.
pub mod Verified
mod Tests
use mrs_fpga_toolkit.Base.{
  ℕ, zero, suc, ◌+◌, ◌-◌, ◌*◌, ◌/◌, Bool, true, false, not, ◌&&◌, ltb, ◌==◌, ◌!=◌, List, [], ◌∷◌,
  ◌++◌, length, take, drop, all, min, max, if◌then◌else◌,
}
use mrs_fpga_toolkit.Base.Bits.{any_bit}
use mrs_fpga_toolkit.Machine.{
  M, ⊤, runtime_error, verification_failed, pure, throw_if, choose, when, hang, ◌>>=◌, ◌>>◌,
}
use mrs_fpga_toolkit.SpiNor.{Nor, SpiNor, profile_of, read_status, check_range}
use mrs_fpga_toolkit.SpiNor.Blocks.{read, erase_sector, program}

-- `operator==` on vectors, and how long their common start is.
unfoldable pub same_bytes : List ℕ → List ℕ → Bool
same_bytes [] [] = true
same_bytes [] (y ∷ ys) = false
same_bytes (x ∷ xs) [] = false
same_bytes (x ∷ xs) (y ∷ ys) = x == y && same_bytes xs ys

unfoldable pub mismatch : List ℕ → List ℕ → ℕ
mismatch [] ys = 0
mismatch (x ∷ xs) [] = 0
mismatch (x ∷ xs) (y ∷ ys) = let rest = mismatch xs ys in if x == y then suc rest else 0

-- `{data.begin() + start, data.begin() + end}`
abbrev pub slice : ℕ → ℕ → List ℕ → List ℕ
slice start end bytes = take (end - start) (drop start bytes)

module _ {S : Type 0} (flash : SpiNor S) where
  unfoldable pub require_writable : M (Nor S) ⊤
  require_writable = do
    status ← read_status flash
    throw_if (any_bit status (profile_of flash).error_mask)
        (runtime_error "flash has a latched erase/program error")
    throw_if (any_bit status (profile_of flash).protect_mask)
        (runtime_error "flash block-protect bits are set; protection is not altered")

  -- The loop over the pages of a sector, `page` being the loop variable; a round for each page.
  unfoldable pub page_loop : ℕ → ℕ → List ℕ → ℕ → M (Nor S) ⊤
  page_loop zero address desired page = hang
  page_loop (suc rounds) address desired page =
      choose (not (ltb page (length desired))) (pure tt) do
        let page_size = (profile_of flash).page_size
        let bytes = slice page (min (length desired) (page + page_size)) desired
        when (not (all (λ value. value == 0xff) bytes)) (program flash (address + page) bytes)
        page_loop rounds address desired (page + page_size)

  -- What a sector is to hold. `current` is what was read of it, empty where it was not read.
  abbrev pub desired_of : List ℕ → ℕ → ℕ → ℕ → ℕ → Bool → List ℕ → List ℕ
  desired_of image image_offset address start end whole current =
      let part = slice (start - image_offset) (end - image_offset) image in
      if whole then part else take (start - address) current ++ part ++ drop (end - address) current

  -- One round of the loop over the sectors.
  unfoldable pub write_sector : List ℕ → ℕ → Bool → ℕ → M (Nor S) ⊤
  write_sector image image_offset rewrite_all sector = do
    let erase_size = (profile_of flash).erase_size
    let address = sector * erase_size
    let start = max address image_offset
    let end = min (address + erase_size) (image_offset + length image)
    let fully_covered = start - address == 0 && end - address == erase_size
    current ← choose (rewrite_all && fully_covered) (pure []) (read flash address erase_size)
    let desired =
        desired_of image image_offset address start end (rewrite_all && fully_covered) current
    choose (not rewrite_all && same_bytes current desired) (pure tt)
        do erase_sector flash address; page_loop (suc (length desired)) address desired 0

  -- `count` sectors from `sector` on.
  unfoldable pub sector_loop : List ℕ → ℕ → Bool → ℕ → ℕ → M (Nor S) ⊤
  sector_loop image image_offset rewrite_all zero sector = pure tt
  sector_loop image image_offset rewrite_all (suc count) sector = do
    write_sector image image_offset rewrite_all sector
    sector_loop image image_offset rewrite_all count (suc sector)

  -- After the range check no sum of offsets comes near 2 ^ 64.
  unfoldable pub program_and_verify : List ℕ → ℕ → Bool → M (Nor S) ⊤
  program_and_verify image image_offset rewrite_all = do
    check_range flash image_offset (length image)
    require_writable
    let erase_size = (profile_of flash).erase_size
    let first = image_offset / erase_size
    let last = (image_offset + length image + erase_size - 1) / erase_size
    sector_loop image image_offset rewrite_all (last - first) first
    actual ← read flash image_offset (length image)
    throw_if (not (same_bytes actual image))
        (verification_failed (image_offset + mismatch actual image))
