-- ===== src/Machine/Hands.antt =====
-- Methods that keep an invariant of the state and hand out values of which something is known.
use mrs_fpga_toolkit.Machine.Monad.{Outcome, ok, throws, hangs, M, pure, lift, continue, ◌>>=◌}
use mrs_fpga_toolkit.Machine.Keeps.{Keeps}

abbrev pub Gives : {A : Type 0} → (A → Type 0) → Outcome A → Type 0
Gives Q (ok a) = Q a
Gives Q (throws e) = Unit
Gives Q hangs = Unit

pub record Hands {S A : Type 0} (P : S → Type 0) (Q : A → Type 0) (m : M S A) : Type 0 where
  pub at : (s : S) → P s → Gives Q (m s).0 × P (m s).1

module _ {S A : Type 0} {P : S → Type 0} {Q : A → Type 0} where
  pub Hands-pure : (a : A) → Q a → Hands P Q (pure a)
  unfolding ◌>>=◌
  Hands-pure a q = record { at = λ s h. (q, h) }

  pub Hands-lift : (r : Outcome A) → Gives Q r → Hands P Q (lift r)
  unfolding ◌>>=◌
  Hands-lift r q = record { at = λ s h. (q, h) }

module _ {S A : Type 0} {P : S → Type 0} where
  pub Hands-of_keeps : (m : M S A) → Keeps P m → Hands P (λ _. Unit) m
  Hands-of_keeps m k = record { at = λ s h. (on (m s).0, k.at s h) }
    where
      on : (r : Outcome A) → Gives (λ _. Unit) r
      on (ok a) = tt
      on (throws e) = tt
      on hangs = tt

module _ {S A B : Type 0} {P : S → Type 0} {R : A → Type 0} {Q : B → Type 0} where
  pub Hands-bind :
      (m : M S A) (f : A → M S B)
      → Hands P R m
      → ((a : A) → R a → Hands P Q (f a))
      → Hands P Q (m >>= f)
  unfolding ◌>>=◌
  Hands-bind m f first later = record { at = λ s h. let (r, s') = m s in after r s' (first.at s h) }
    where
      after :
          (r : Outcome A) (s' : S)
          → Gives R r × P s'
          → Gives Q (continue r f s').0 × P (continue r f s').1
      after (ok a) s' h = (later a h.0).at s' h.1
      after (throws e) s' h = (tt, h.1)
      after hangs s' h = (tt, h.1)

module _ {S A B : Type 0} {P : S → Type 0} {R : A → Type 0} where
  -- The rest of a block may use what is known of the value.
  pub Keeps-bind_hands :
      (m : M S A) (f : A → M S B)
      → Hands P R m
      → ((a : A) → R a → Keeps P (f a))
      → Keeps P (m >>= f)
  Keeps-bind_hands m f first later =
      let both =
        Hands-bind {Q = λ _. Unit} m f first
          (λ a q. record { at = λ s h. (any s h a q, (later a q).at s h) }) in
      record { at = λ s h. (both.at s h).1 }
    where
      known : (r : Outcome B) → Gives (λ _. Unit) r
      known (ok b) = tt
      known (throws e) = tt
      known hangs = tt

      any : (s : S) → P s → (a : A) → R a → Gives (λ _. Unit) (f a s).0
      any s h a q = known (f a s).0
