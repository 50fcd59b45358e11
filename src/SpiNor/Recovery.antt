-- ===== src/SpiNor/Recovery.antt =====
-- Bringing a flash into a known mode: the constructor with its recovery, and Micron's NVCR.
use mrs_fpga_toolkit.Base.{
  ℕ, ◌*◌, ◌^◌, ◌/◌, bit_and, bit_or, Bool, true, false, not, ◌&&◌, ◌==◌, ◌!=◌, List, [], ◌∷◌,
  get_or, min, Option, none, some,
}
use mrs_fpga_toolkit.Base.Bits.{u8}
use mrs_fpga_toolkit.Machine.{
  M, ⊤, Outcome, ok, throws, hangs, command_error, runtime_error, pure, throw, throw_if, choose,
  when, ◌>>=◌, ◌>>◌,
}
use mrs_fpga_toolkit.SpiNor.{
  Spi, Nor, SpiNor, Profile, spansion, micron, profiles, match_profile, is_idle_bus, transfer,
  pause, refresh_id, write_enable, wait_ready,
}

-- `!= nullptr`
abbrev is_some : Option Profile → Bool
is_some none = false
is_some (some p) = true

abbrev recovered : Outcome (List ℕ) → Outcome Bool
recovered (ok response) = ok true
recovered (throws (command_error opcode)) = ok false
recovered (throws other) = throws other
recovered hangs = hangs

module _ {S : Type 0} (spi : Spi S) where
  unfoldable pub try_recovery : ℕ → M (Nor S) Bool
  try_recovery command n = let (r, n') = transfer spi (command ∷ []) n in (recovered r, n')

  -- `if (matchProfile(jedec_id_) != nullptr) return; rest`
  abbrev unless_known : List ℕ → M (Nor S) ⊤ → M (Nor S) ⊤
  unless_known id rest = choose (is_some (match_profile id)) (pure tt) rest

  unfoldable pub recover_serial_mode : M (Nor S) ⊤
  recover_serial_mode = do
    powered ← try_recovery 0xab
    pause spi 1000000
    first ← refresh_id spi
    unless_known first do
      left_quad ← try_recovery 0xf5
      pause spi 1000000
      second ← refresh_id spi
      unless_known second do
        enabled ← try_recovery 0x66
        when enabled (try_recovery 0x99 >>= λ _. pure tt)
        pause spi 1000000
        left_again ← try_recovery 0xf5
        pause spi 1000000
        third ← refresh_id spi
        unless_known third do
          mode_reset ← try_recovery 0xff
          when mode_reset (try_recovery 0xf0 >>= λ _. pure tt)
          pause spi 1000000
          fourth ← refresh_id spi
          pure tt

  -- `jedec_id_`
  unfoldable pub current_id : M (Nor S) (List ℕ)
  current_id n = (ok n.jedec_id, n)

  abbrev chosen : Option Profile → M (Nor S) (SpiNor S)
  chosen none = throw (runtime_error "unsupported or unresponsive SPI flash JEDEC ID")
  chosen (some p) = pure record {
    spi = spi;
    profile = p;
    capacity = min (profiles p).physical_capacity (2 ^ (8 * (profiles p).address_bytes));
  }

  -- The constructor.
  unfoldable pub spi_nor : M (Nor S) (SpiNor S)
  spi_nor = do
    first ← refresh_id spi
    when (not (is_some (match_profile first)) && is_idle_bus first) recover_serial_mode
    id ← current_id
    chosen (match_profile id)

abbrev pub is_micron : Profile → Bool
is_micron micron = true
is_micron spansion = false

abbrev pub same_profile : Option Profile → Profile → Bool
same_profile (some micron) micron = true
same_profile (some spansion) spansion = true
same_profile _ _ = false

abbrev pub micron_safe_mask : ℕ
micron_safe_mask = 0x0e3f

unfoldable pub micron_boot_safe : ℕ → Bool
micron_boot_safe value = bit_and value micron_safe_mask == micron_safe_mask

module _ {S : Type 0} (nor : SpiNor S) where
  unfoldable pub read_micron_nvcr : M (Nor S) ℕ
  read_micron_nvcr = do
    throw_if (not (is_micron nor.profile)) (runtime_error "NVCR is available only on Micron MT25Q")
    response ← transfer nor.spi (0xb5 ∷ 0 ∷ 0 ∷ [])
    pure (bit_or (get_or response 1 0) (get_or response 2 0 * 2 ^ 8))

  unfoldable pub repair_micron_boot_mode : M (Nor S) (ℕ × ℕ)
  repair_micron_boot_mode = do
    before ← read_micron_nvcr
    let after : ℕ = bit_or before micron_safe_mask
    when (after != before) do
      write_enable nor
      ignored ← transfer nor.spi (0xb1 ∷ u8 after ∷ u8 (after / 2 ^ 8) ∷ [])
      wait_ready nor 10000000000 "Micron nonvolatile configuration write" 2000000
      now ← read_micron_nvcr
      throw_if (now != after) (runtime_error "Micron NVCR verification failed")
    enable_answer ← transfer nor.spi (0x66 ∷ [])
    reset_answer ← transfer nor.spi (0x99 ∷ [])
    pause nor.spi 1000000
    id ← refresh_id nor.spi
    throw_if (not (same_profile (match_profile id) nor.profile))
        (runtime_error "Micron flash did not return to extended SPI after NVCR reload")
    pure (before, after)
