-- ===== src/SpiNor.antt =====
-- The SPI NOR flash driver of dev/src/ip_drivers/qspi.cpp over a serial link.
-- `profile_` points into the table of profiles, so it is a value of `Profile`. A timeout is in
-- nanoseconds. A response has as many bytes as its command, and the driver indexes it on that ground;
-- the model reads 0 beyond the end.
pub mod Blocks
pub mod Recovery
pub mod Reading
pub mod Settles
pub mod Address
pub mod Pages
mod Tests
use mrs_fpga_toolkit.Base.{
  ℕ, zero, suc, ◌+◌, ◌*◌, ◌^◌, ◌-◌, ◌/◌, bit_and, Bool, true, false, not, ◌&&◌, ◌||◌, ltb, leb,
  ◌==◌, ◌!=◌, List, [], ◌∷◌, ◌++◌, length, get_or, drop, replicate, all, min, Option, none, some,
  String, if◌then◌else◌,
}
use mrs_fpga_toolkit.Base.Bits.{u8, u64, any_bit}
use mrs_fpga_toolkit.Machine.{
  M, ⊤, invalid_argument, out_of_range, runtime_error, flash_error, Outcome, ok, throws, pure,
  throw, throw_if, choose, hang, ◌>>=◌, ◌>>◌,
}

-- What the driver uses of `AxiQuadSpi` and of the thread.
pub record Spi (S : Type 0) : Type 0 where
  pub transfer : List ℕ → M S (List ℕ)
  pub now : S → ℕ × S
  pub sleep_for : ℕ → S → S

pub record QspiFlashProfile : Type 0 where
  pub jedec_prefix : List ℕ
  pub physical_capacity : ℕ
  pub erase_size : ℕ
  pub page_size : ℕ
  pub protect_mask : ℕ
  pub error_mask : ℕ
  pub address_bytes : ℕ
  pub read_command : ℕ
  pub program_command : ℕ
  pub erase_command : ℕ

-- The positions in `profiles`.
pub data Profile : Type 0 where
  spansion : Profile
  micron : Profile

abbrev pub profiles : Profile → QspiFlashProfile
profiles spansion = record {
  jedec_prefix = 0x01 ∷ 0x02 ∷ 0x19 ∷ 0x4d ∷ 0x01 ∷ 0x80 ∷ [];
  physical_capacity = 32 * 1024 * 1024;
  erase_size = 64 * 1024;
  page_size = 256;
  protect_mask = 0x1c;
  error_mask = 0x60;
  address_bytes = 3;
  read_command = 0x03;
  program_command = 0x02;
  erase_command = 0xd8;
}
profiles micron = record {
  jedec_prefix = 0x20 ∷ 0xba ∷ 0x20 ∷ [];
  physical_capacity = 64 * 1024 * 1024;
  erase_size = 64 * 1024;
  page_size = 256;
  protect_mask = 0x5c;
  error_mask = 0x00;
  address_bytes = 4;
  read_command = 0x13;
  program_command = 0x12;
  erase_command = 0xdc;
}

-- `std::equal` on a prefix that is not longer.
unfoldable pub starts_with : List ℕ → List ℕ → Bool
starts_with [] id = true
starts_with (p ∷ prefix) [] = false
starts_with (p ∷ prefix) (b ∷ id) = p == b && starts_with prefix id

unfoldable pub match_profile : List ℕ → Option Profile
match_profile id =
    if starts_with (profiles spansion).jedec_prefix id
    then some spansion
    else if starts_with (profiles micron).jedec_prefix id
    then some micron
    else none

unfoldable pub is_idle_bus : List ℕ → Bool
is_idle_bus [] = false
is_idle_bus (b ∷ id) = (b == 0 || b == 0xff) && all (λ value. value == b) (b ∷ id)

-- The most significant byte first.
unfoldable pub address_bytes_of : ℕ → ℕ → List ℕ
address_bytes_of zero address = []
address_bytes_of (suc index) address =
    u8 (address / 2 ^ (8 * index)) ∷ address_bytes_of index address

-- The state of a driver: its device, and `jedec_id_`.
pub record Nor (S : Type 0) : Type 0 where
  pub device : S
  pub jedec_id : List ℕ

-- The members that stay.
pub record SpiNor (S : Type 0) : Type 0 where
  pub spi : Spi S
  pub profile : Profile
  pub capacity : ℕ

module _ {S : Type 0} (spi : Spi S) where
  unfoldable pub transfer : List ℕ → M (Nor S) (List ℕ)
  transfer bytes n = let (r, s') = spi.transfer bytes n.device in (r, record n { device = s' })

  unfoldable pub clock : M (Nor S) ℕ
  clock n = let (t, s') = spi.now n.device in (ok t, record n { device = s' })

  unfoldable pub pause : ℕ → M (Nor S) ⊤
  pause ns n = (ok tt, record n { device = spi.sleep_for ns n.device })

  unfoldable pub read_id : M (Nor S) (List ℕ)
  read_id = do response ← transfer (0x9f ∷ replicate 6 0); pure (drop 1 response)

  -- `jedec_id_ = readId();`
  unfoldable pub refresh_id : M (Nor S) (List ℕ)
  refresh_id = do id ← read_id; λ n. (ok id, record n { jedec_id = id })

module _ {S : Type 0} (nor : SpiNor S) where
  abbrev pub profile_of : QspiFlashProfile
  profile_of = profiles nor.profile

  unfoldable pub read_status : M (Nor S) ℕ
  read_status = do response ← transfer nor.spi (0x05 ∷ 0 ∷ []); pure (get_or response 1 0)

  unfoldable pub check_range : ℕ → ℕ → M (Nor S) ⊤
  check_range address length =
      throw_if (ltb nor.capacity address || ltb (nor.capacity - address) length)
        (out_of_range "requested range exceeds the accessible flash window")

  unfoldable pub encode_address : ℕ → M (Nor S) (List ℕ)
  encode_address address =
      choose (ltb (2 ^ (8 * profile_of.address_bytes) - 1) address)
        (throw (out_of_range "flash address exceeds command width"))
        (pure (address_bytes_of profile_of.address_bytes address))

  unfoldable pub write_enable : M (Nor S) ⊤
  write_enable = do
    ignored ← transfer nor.spi (0x06 ∷ [])
    status ← read_status
    throw_if (not (any_bit status 0x02)) (runtime_error "flash rejected Write Enable")

  -- Each round reads the clock, so a clock that ticks ends the loop within `timeout` rounds.
  unfoldable pub ready_loop : ℕ → ℕ → String → ℕ → M (Nor S) ⊤
  ready_loop zero deadline operation interval = hang
  ready_loop (suc rounds) deadline operation interval = do
    current ← read_status
    throw_if (any_bit current profile_of.error_mask)
        (flash_error "flash reported an error during " operation "")
    choose (not (any_bit current 0x01))
        (throw_if (any_bit current 0x02)
          (flash_error "" operation " did not start; Write Enable remained set"))
        (do
          time ← clock nor.spi
          choose (leb deadline time) (throw (flash_error "timeout waiting for " operation ""))
              (pause nor.spi interval >> ready_loop rounds deadline operation interval))

  unfoldable pub wait_ready : ℕ → String → ℕ → M (Nor S) ⊤
  wait_ready timeout operation interval = do
    start ← clock nor.spi
    ready_loop (suc timeout) (start + timeout) operation interval
