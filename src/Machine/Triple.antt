-- ===== src/Machine/Triple.antt =====
-- Pre- and postconditions of methods: from `P` a method returns in `Q` or throws in `E`.
use mrs_fpga_toolkit.Machine.Monad.{Outcome, ok, throws, hangs, M, pure, continue, ◌>>=◌}
use mrs_fpga_toolkit.Machine.Keeps.{Keeps}

abbrev pub After : {S A : Type 0} → (S → Type 0) → (S → Type 0) → Outcome A → S → Type 0
After Q E (ok a) s = Q s
After Q E (throws e) s = E s
After Q E hangs s = Unit

pub record Triple {S A : Type 0} (P : S → Type 0) (m : M S A) (Q E : S → Type 0) : Type 0 where
  pub at : (s : S) → P s → After Q E (m s).0 (m s).1

keeps_After : {S A : Type 0} (P : S → Type 0) (r : Outcome A) (s : S) → P s → After P P r s
keeps_After P (ok a) s h = h
keeps_After P (throws e) s h = h
keeps_After P hangs s h = tt

pub Triple-of_keeps : {S A : Type 0} {P : S → Type 0} (m : M S A) → Keeps P m → Triple P m P P
Triple-of_keeps {P} m k = record { at = λ s h. keeps_After P (m s).0 (m s).1 (k.at s h) }

pub Triple-pure : {S A : Type 0} {P E : S → Type 0} (a : A) → Triple P (pure a) P E
unfolding ◌>>=◌
Triple-pure a = record { at = λ s h. h }

module _ {S A B : Type 0} {P R Q E : S → Type 0} where
  pub Triple-bind :
      (m : M S A) (f : A → M S B)
      → Triple P m R E
      → ((a : A) → Triple R (f a) Q E)
      → Triple P (m >>= f) Q E
  unfolding ◌>>=◌
  Triple-bind m f first later = record {
    at = λ s h. let (r, s') = m s in after r s' (first.at s h);
  }
    where
      after :
          (r : Outcome A) (s' : S)
          → After R E r s'
          → After Q E (continue r f s').0 (continue r f s').1
      after (ok a) s' h = (later a).at s' h
      after (throws e) s' h = h
      after hangs s' h = tt
