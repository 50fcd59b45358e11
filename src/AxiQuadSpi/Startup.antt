-- ===== src/AxiQuadSpi/Startup.antt =====
-- The slave select register after the constructor of `AxiQuadSpi`.
use mrs_fpga_toolkit.Base.{ℕ, ◌+◌, ◌≤◌, ◌≡◌, arith}
use mrs_fpga_toolkit.Base.Int.{ℤ, pos_part}
use mrs_fpga_toolkit.Machine.{Outcome, ok, throws, hangs, ◌>>=◌, Bus, M}
use mrs_fpga_toolkit.Machine.Keeps.{Keeps}
use mrs_fpga_toolkit.Machine.Triple.{Triple, After, Triple-bind, Triple-of_keeps}
use mrs_fpga_toolkit.Machine.Recorded.{Recorded, recorded, IsReliable}
use mrs_fpga_toolkit.IpDriverLite.{ip_driver_lite}
use mrs_fpga_toolkit.AxiQuadSpi.{AxiQuadSpi, prime_startup_clock, axi_quad_spi}
use mrs_fpga_toolkit.AxiQuadSpi.Payload.{on_record}
use mrs_fpga_toolkit.AxiQuadSpi.Deselects.{
  Deselected, deselected_rules, clear_interrupts-Safe, drain-Safe, reset-Safe, deselect-Triple,
}

module _ {S : Type 0} (bus : Bus S) (base timeout : ℕ) {answer : ℕ → S → ℕ}
    (reliable : IsReliable bus answer) (fits : base + 0x200 ≤ 0x100000000) where
  abbrev Anything : Recorded S → Type 0
  Anything s = Unit

  abbrev Quiet : Recorded S → Type 0
  Quiet = Deselected bus base timeout

  loose :
      {A : Type 0} {P Q E : Recorded S → Type 0} (m : M (Recorded S) A)
      → Triple P m Q E
      → Triple P m Q Anything
  loose {Q} {E} m k = record { at = λ s h. on (m s).0 (m s).1 (k.at s h) }
    where
      on : {A : Type 0} (r : Outcome A) (s' : Recorded S) → After Q E r s' → After Q Anything r s'
      on (ok a) s' h = h
      on (throws e) s' h = tt
      on hangs s' h = tt

  kept_loose : {A : Type 0} (m : M (Recorded S) A) → Keeps Quiet m → Triple Quiet m Quiet Anything
  kept_loose m k = loose m (Triple-of_keeps m k)

  anyway : {A : Type 0} (m : M (Recorded S) A) → Triple Anything m Anything Anything
  anyway m = Triple-of_keeps m (record { at = λ s h. tt })

  prime-Triple : Triple Anything (prime_startup_clock (on_record bus base timeout)) Quiet Anything
  unfolding prime_startup_clock
  prime-Triple = Triple-bind {R = Anything} _ _ (anyway _) λ _.
      Triple-bind {R = Quiet} _ _ (loose _ (deselect-Triple bus base timeout reliable fits)) λ _.
        Triple-bind {R = Quiet} _ _ (kept_loose _ (clear_interrupts-Safe bus base timeout)) λ _.
          Triple-bind {R = Quiet} _ _
            (kept_loose _ (search (deselected_rules, drain-Safe) depth 14))
            λ _. Triple-bind {R = Quiet} _ _ (kept_loose _ (search deselected_rules)) λ _.
              Triple-bind {R = Quiet} _ _ (kept_loose _ (search deselected_rules))
                λ _. kept_loose _ (reset-Safe bus base timeout)

module _ {S : Type 0} (bus : Bus S) {answer : ℕ → S → ℕ} (reliable : IsReliable bus answer) where
  primed :
      (base timeout : ℕ) (s : Recorded S)
      → base + 0x200 ≤ 0x100000000
      → (prime_startup_clock (on_record bus base timeout) s).0 ≡ ok tt
      → Deselected bus base timeout (prime_startup_clock (on_record bus base timeout) s).1
  primed base timeout s fits e =
      ended (prime_startup_clock (on_record bus base timeout) s).0
        (prime_startup_clock (on_record bus base timeout) s).1 e
        ((prime-Triple bus base timeout reliable fits).at s tt)
    where
      ended :
          (r : Outcome Unit) (s' : Recorded S)
          → r ≡ ok tt
          → After (Deselected bus base timeout) (λ s. Unit) r s'
          → Deselected bus base timeout s'
      ended (ok a) s' e h = h
      ended (throws x) s' e h = absurd cc
      ended hangs s' e h = absurd cc

  -- Where no access throws and the window fits 32 bits: a constructor that returns has built a controller with the address and the
  -- timeout given, and the last word written to its slave select register deselects the flash.
  pub axi_quad_spi_deselects :
      (base : ℕ) (timeout : ℤ) (s : Recorded S) (q : AxiQuadSpi (Recorded S))
      → base + 0x200 ≤ 0x100000000
      → let (r, s') = axi_quad_spi (recorded bus) base timeout s in
        r ≡ ok q
        → (q ≡ on_record bus base (pos_part timeout)) × Deselected bus base (pos_part timeout) s'
  unfolding axi_quad_spi ip_driver_lite ◌>>=◌
  axi_quad_spi_deselects base timeout s q fits e =
      (ground arith, ground (arith, primed base (pos_part timeout) s fits))
