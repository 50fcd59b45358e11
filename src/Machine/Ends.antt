-- ===== src/Machine/Ends.antt =====
-- Methods that return or throw, whatever the state they start in.
use mrs_fpga_toolkit.Base.{ℕ, refl, Option, none, some, Bool, true, false, List, [], ◌∷◌, ◌≢◌}
use mrs_fpga_toolkit.Machine.Monad.{
  Exception, Outcome, ok, throws, hangs, M, ⊤, pure, throw, lift, continue, ◌>>=◌, throw_if, choose,
  given, when, settle, on_throw, for_each, Bus, clock_now, sleep,
}

pub record Ends {S A : Type 0} (m : M S A) : Type 0 where
  pub at : (s : S) → (m s).0 ≢ hangs

module _ {S A : Type 0} where
  pub Ends-pure : (a : A) → Ends (pure {S = S} a)
  unfolding ◌>>=◌
  Ends-pure a = record { at = λ s e. cc }

  pub Ends-throw : (e : Exception) → Ends (throw {S = S} {A = A} e)
  unfolding ◌>>=◌
  Ends-throw e = record { at = λ s h. cc }

  pub Ends-lift : (r : Outcome A) → r ≢ hangs → Ends (lift {S = S} r)
  unfolding ◌>>=◌
  Ends-lift r h = record { at = λ s e. h e }

  pub Ends-choose : (b : Bool) (m n : M S A) → Ends m → Ends n → Ends (choose b m n)
  unfolding ◌>>=◌
  Ends-choose true m n km kn = record { at = km.at }
  Ends-choose false m n km kn = record { at = kn.at }

module _ {S A B : Type 0} where
  pub Ends-given :
      (a : Option A) (m : M S B) (f : A → M S B)
      → Ends m
      → ((x : A) → Ends (f x))
      → Ends (given a m f)
  unfolding ◌>>=◌
  Ends-given none m f km kf = record { at = km.at }
  Ends-given (some x) m f km kf = record { at = (kf x).at }

module _ {S : Type 0} where
  pub Ends-throw_if : (b : Bool) (e : Exception) → Ends (throw_if {S = S} b e)
  unfolding ◌>>=◌
  Ends-throw_if true e = record { at = λ s h. cc }
  Ends-throw_if false e = record { at = λ s h. cc }

  pub Ends-when : (b : Bool) (m : M S ⊤) → Ends m → Ends (when b m)
  unfolding ◌>>=◌
  Ends-when true m km = record { at = km.at }
  Ends-when false m km = record { at = λ s h. cc }

  pub Ends-clock_now : (bus : Bus S) → Ends (clock_now bus)
  unfolding clock_now
  Ends-clock_now bus = record { at = λ s h. cc }

  pub Ends-sleep : (bus : Bus S) (ns : ℕ) → Ends (sleep bus ns)
  unfolding sleep
  Ends-sleep bus ns = record { at = λ s h. cc }

module _ {S A B : Type 0} where
  pub Ends-bind : (m : M S A) (f : A → M S B) → Ends m → ((a : A) → Ends (f a)) → Ends (m >>= f)
  unfolding ◌>>=◌
  Ends-bind m f km kf = record { at = λ s. let (r, s') = m s in after r s' (km.at s) }
    where
      after : (r : Outcome A) (s' : S) → r ≢ hangs → (continue r f s').0 ≢ hangs
      after (ok a) s' h = (kf a).at s'
      after (throws e) s' h = λ p. cc
      after hangs s' h = absurd (h refl)

module _ {S A : Type 0} where
  pub Ends-for_each :
      (xs : List A) (body : A → M S ⊤) → ((x : A) → Ends (body x)) → Ends (for_each xs body)
  unfolding for_each
  Ends-for_each [] body kb = Ends-pure tt
  Ends-for_each (x ∷ xs) body kb = Ends-bind _ _ (kb x) (λ _. Ends-for_each xs body kb)

  Ends-settle : (c : M S ⊤) (r : Outcome A) → r ≢ hangs → Ends c → Ends (settle c r)
  unfolding settle
  Ends-settle c (ok a) h kc = Ends-pure a
  Ends-settle c (throws e) h kc = Ends-bind _ _ kc (λ _. Ends-throw e)
  Ends-settle c hangs h kc = absurd (h refl)

  pub Ends-on_throw : (m : M S A) (c : M S ⊤) → Ends m → Ends c → Ends (on_throw m c)
  unfolding on_throw
  Ends-on_throw m c km kc = record {
    at = λ s. let (r, s') = m s in (Ends-settle c r (km.at s) kc).at s';
  }

pub ruleset ends_rules = (
  Ends-pure, Ends-throw, Ends-choose, Ends-given, Ends-throw_if, Ends-when, Ends-clock_now,
  Ends-sleep, Ends-bind, Ends-for_each, Ends-on_throw,
)
