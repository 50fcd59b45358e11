-- ===== src/Machine/Contract.antt =====
-- Contracts of methods: from `P` a method returns a value `a` in `Q a`, or throws in `E`.
use mrs_fpga_toolkit.Base.{Bool, true, false, ◌≡◌, refl}
use mrs_fpga_toolkit.Machine.Monad.{
  Exception, Outcome, ok, throws, hangs, M, ⊤, pure, throw, throw_if, hang, continue, choose, when,
  settle, on_throw, ◌>>=◌,
}
use mrs_fpga_toolkit.Machine.Keeps.{Keeps}

abbrev pub Meets : {S A : Type 0} → (A → S → Type 0) → (S → Type 0) → Outcome A → S → Type 0
Meets Q E (ok a) s = Q a s
Meets Q E (throws e) s = E s
Meets Q E hangs s = Unit

pub record Contract {S A : Type 0} (P : S → Type 0) (m : M S A) (Q : A → S → Type 0)
    (E : S → Type 0) : Type 0 where
  pub at : (s : S) → P s → Meets Q E (m s).0 (m s).1

module _ {S A B : Type 0} {P E : S → Type 0} {R : A → S → Type 0} {Q : B → S → Type 0} where
  pub Contract-bind :
      (m : M S A) (f : A → M S B)
      → Contract P m R E
      → ((a : A) → Contract (R a) (f a) Q E)
      → Contract P (m >>= f) Q E
  unfolding ◌>>=◌
  Contract-bind m f first later = record {
    at = λ s h. let (r, s') = m s in after r s' (first.at s h);
  }
    where
      after :
          (r : Outcome A) (s' : S)
          → Meets R E r s'
          → Meets Q E (continue r f s').0 (continue r f s').1
      after (ok a) s' h = (later a).at s' h
      after (throws e) s' h = h
      after hangs s' h = tt

module _ {S A : Type 0} {P E : S → Type 0} {Q : A → S → Type 0} where
  pub Contract-pure : (a : A) → ((s : S) → P s → Q a s) → Contract P (pure a) Q E
  unfolding ◌>>=◌
  Contract-pure a h = record { at = h }

  pub Contract-throw : (e : Exception) → ((s : S) → P s → E s) → Contract P (throw e) Q E
  unfolding ◌>>=◌
  Contract-throw e h = record { at = h }

  pub Contract-hang : Contract P hang Q E
  unfolding ◌>>=◌
  Contract-hang = record { at = λ s h. tt }

  pub Contract-choose :
      (b : Bool) (m n : M S A)
      → (b ≡ true → Contract P m Q E)
      → (b ≡ false → Contract P n Q E)
      → Contract P (choose b m n) Q E
  unfolding ◌>>=◌
  Contract-choose true m n km kn = record { at = (km refl).at }
  Contract-choose false m n km kn = record { at = (kn refl).at }

  pub Contract-by :
      {R : A → S → Type 0} {F : S → Type 0} (m : M S A)
      → Contract P m R F
      → ((a : A) (s : S) → R a s → Q a s)
      → ((s : S) → F s → E s)
      → Contract P m Q E
  Contract-by {R} {F} m k weaken raise = record { at = λ s h. on (m s).0 (m s).1 (k.at s h) }
    where
      on : (r : Outcome A) (s' : S) → Meets R F r s' → Meets Q E r s'
      on (ok a) s' h = weaken a s' h
      on (throws e) s' h = raise s' h
      on hangs s' h = tt

  pub Contract-cases :
      (b : Bool) (m : M S A)
      → (b ≡ true → Contract P m Q E)
      → (b ≡ false → Contract P m Q E)
      → Contract P m Q E
  Contract-cases true m k n = k refl
  Contract-cases false m k n = n refl

  -- A fact that the precondition gives, whatever the state, may be used of the method.
  pub Contract-given :
      {P' : S → Type 0} {X : Type 0} (m : M S A)
      → ((s : S) → P s → X × P' s)
      → (X → Contract P' m Q E)
      → Contract P m Q E
  Contract-given m split k = record { at = λ s h. (k (split s h).0).at s (split s h).1 }

module _ {S : Type 0} {P E : S → Type 0} where
  pub Contract-throw_if :
      (b : Bool) (e : Exception)
      → ((s : S) → P s → b ≡ true → E s)
      → Contract P (throw_if b e) (λ _ s. P s × (b ≡ false)) E
  unfolding ◌>>=◌
  Contract-throw_if true e h = record { at = λ s k. h s k refl }
  Contract-throw_if false e h = record { at = λ s k. (k, refl) }

  pub Contract-no_throw : (e : Exception) → Contract P (throw_if false e) (λ _. P) E
  unfolding ◌>>=◌
  Contract-no_throw e = record { at = λ s h. h }

  pub Contract-when :
      {Q : S → Type 0} (b : Bool) (m : M S ⊤)
      → (b ≡ true → Contract P m (λ _. Q) E)
      → (b ≡ false → (s : S) → P s → Q s)
      → Contract P (when b m) (λ _. Q) E
  unfolding ◌>>=◌
  Contract-when true m km kn = record { at = (km refl).at }
  Contract-when false m km kn = record { at = kn refl }

module _ {S A : Type 0} {P : S → Type 0} where
  pub Contract-of_keeps : (m : M S A) → Keeps P m → Contract P m (λ _. P) P
  Contract-of_keeps m k = record { at = λ s h. on (m s).0 (m s).1 (k.at s h) }
    where
      on : (r : Outcome A) (s' : S) → P s' → Meets (λ _. P) P r s'
      on (ok a) s' h = h
      on (throws e) s' h = h
      on hangs s' h = tt

-- A handler runs where the block throws, and what it throws itself counts too.
module _ {S A : Type 0} {P F E : S → Type 0} {Q : A → S → Type 0} where
  pub Contract-on_throw :
      (m : M S A) (c : M S ⊤)
      → Contract P m Q F
      → Contract F c (λ _. E) E
      → Contract P (on_throw m c) Q E
  unfolding on_throw settle ◌>>=◌
  Contract-on_throw m c km kc = record { at = λ s h. on (m s).0 (m s).1 (km.at s h) }
    where
      raised :
          (e : Exception) (r : Outcome ⊤) (s' : S)
          → Meets (λ _. E) E r s'
          → Meets Q E
              (continue {B = A} r (λ _. throw e) s').0
              (continue {B = A} r (λ _. throw e) s').1
      raised e (ok a) s' h = h
      raised e (throws x) s' h = h
      raised e hangs s' h = tt

      on : (r : Outcome A) (s' : S) → Meets Q F r s' → Meets Q E (settle c r s').0 (settle c r s').1
      on (ok a) s' h = h
      on (throws e) s' h = raised e (c s').0 (c s').1 (kc.at s' h)
      on hangs s' h = tt
