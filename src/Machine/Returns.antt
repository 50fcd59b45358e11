-- ===== src/Machine/Returns.antt =====
-- What holds of the value and the state of a method that returns: from `P` it
-- returns a result `a` with `Q a`, or throws.
use mrs_fpga_toolkit.Base.{Bool, true, false, ◌≡◌, refl}
use mrs_fpga_toolkit.Machine.Monad.{
  Exception, Outcome, ok, throws, hangs, M, pure, throw, hang, continue, ◌>>=◌, throw_if, choose,
}

abbrev pub Then : {S A : Type 0} → (A → S → Type 0) → Outcome A → S → Type 0
Then Q (ok a) s = Q a s
Then Q (throws e) s = Unit
Then Q hangs s = ⊥

pub record Returns {S A : Type 0} (P : S → Type 0) (m : M S A) (Q : A → S → Type 0) : Type 0 where
  pub at : (s : S) → P s → Then Q (m s).0 (m s).1

module _ {S A B : Type 0} {P : S → Type 0} {R : A → S → Type 0} {Q : B → S → Type 0} where
  pub Returns-bind :
      (m : M S A) (f : A → M S B)
      → Returns P m R
      → ((a : A) → Returns (R a) (f a) Q)
      → Returns P (m >>= f) Q
  unfolding ◌>>=◌
  Returns-bind m f first later = record {
    at = λ s h. let (r, s') = m s in after r s' (first.at s h);
  }
    where
      after :
          (r : Outcome A) (s' : S) → Then R r s' → Then Q (continue r f s').0 (continue r f s').1
      after (ok a) s' h = (later a).at s' h
      after (throws e) s' h = tt
      after hangs s' h = h

module _ {S A : Type 0} {P : S → Type 0} {Q : A → S → Type 0} where
  pub Returns-pure : (a : A) → ((s : S) → P s → Q a s) → Returns P (pure a) Q
  unfolding ◌>>=◌
  Returns-pure a h = record { at = h }

  pub Returns-throw : (e : Exception) → Returns P (throw e) Q
  unfolding ◌>>=◌
  Returns-throw e = record { at = λ s h. tt }

  pub Returns-hang : ((s : S) → P s → ⊥) → Returns P hang Q
  unfolding ◌>>=◌
  Returns-hang never = record { at = never }

  -- The branches may use how the test came out.
  pub Returns-choose :
      (b : Bool) (m n : M S A)
      → (b ≡ true → Returns P m Q)
      → (b ≡ false → Returns P n Q)
      → Returns P (choose b m n) Q
  unfolding ◌>>=◌
  Returns-choose true m n km kn = record { at = (km refl).at }
  Returns-choose false m n km kn = record { at = (kn refl).at }

  pub Returns-by :
      {R : A → S → Type 0} (m : M S A)
      → Returns P m R
      → ((a : A) (s : S) → R a s → Q a s)
      → Returns P m Q
  Returns-by {R} m k weaken = record { at = λ s h. on (m s).0 (m s).1 (k.at s h) }
    where
      on : (r : Outcome A) (s' : S) → Then R r s' → Then Q r s'
      on (ok a) s' h = weaken a s' h
      on (throws e) s' h = tt
      on hangs s' h = h

  -- A fact that the precondition gives, whatever the state, may be used of the method.
  pub Returns-given :
      {P' : S → Type 0} {X : Type 0} (m : M S A)
      → ((s : S) → P s → X × P' s)
      → (X → Returns P' m Q)
      → Returns P m Q
  Returns-given m split k = record { at = λ s h. (k (split s h).0).at s (split s h).1 }

module _ {S : Type 0} {P : S → Type 0} where
  pub Returns-throw_if :
      (b : Bool) (e : Exception) → Returns P (throw_if b e) (λ _ s. P s × (b ≡ false))
  unfolding ◌>>=◌
  Returns-throw_if true e = record { at = λ s h. tt }
  Returns-throw_if false e = record { at = λ s h. (h, refl) }
