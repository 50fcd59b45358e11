-- ===== src/Machine/Keeps.antt =====
-- Invariants of methods: one rule for each way to build a method.
use mrs_fpga_toolkit.Base.{List, [], ◌∷◌, Option, none, some, Bool, true, false, ◌≡◌, refl}
use mrs_fpga_toolkit.Machine.Monad.{
  Exception, Outcome, ok, throws, hangs, M, ⊤, pure, throw, lift, hang, continue, ◌>>=◌, throw_if,
  choose, given, when, settle, on_throw, for_each,
}

-- However the method ends, the invariant `P` holds after it if it held before.
pub record Keeps {S A : Type 0} (P : S → Type 0) (m : M S A) : Type 0 where
  pub at : (s : S) → P s → P (m s).1

module _ {S : Type 0} {P : S → Type 0} {A : Type 0} where
  pub Keeps-lift : (r : Outcome A) → Keeps P (lift r)
  unfolding ◌>>=◌
  Keeps-lift r = record { at = λ s h. h }

  pub Keeps-pure : (a : A) → Keeps P (pure a)
  unfolding ◌>>=◌
  Keeps-pure a = record { at = λ s h. h }

  pub Keeps-throw : (e : Exception) → Keeps P (throw {A = A} e)
  unfolding ◌>>=◌
  Keeps-throw e = record { at = λ s h. h }

  pub Keeps-hang : Keeps P (hang {S = S} {A = A})
  unfolding ◌>>=◌
  Keeps-hang = record { at = λ s h. h }

  pub Keeps-chosen : (b : Bool) (m n : M S A) → b ≡ true → Keeps P m → Keeps P (choose b m n)
  unfolding ◌>>=◌
  Keeps-chosen true m n e k = record { at = k.at }
  Keeps-chosen false m n e k = absurd (cc)

  pub Keeps-first : (m n : M S A) → Keeps P m → Keeps P (choose true m n)
  unfolding ◌>>=◌
  Keeps-first m n k = record { at = k.at }

  pub Keeps-choose : (b : Bool) (m n : M S A) → Keeps P m → Keeps P n → Keeps P (choose b m n)
  unfolding ◌>>=◌
  Keeps-choose true m n km kn = record { at = km.at }
  Keeps-choose false m n km kn = record { at = kn.at }

module _ {S A B : Type 0} {P : S → Type 0} where
  pub Keeps-given :
      (a : Option A) (m : M S B) (f : A → M S B)
      → Keeps P m
      → ((x : A) → Keeps P (f x))
      → Keeps P (given a m f)
  unfolding ◌>>=◌
  Keeps-given none m f km kf = record { at = km.at }
  Keeps-given (some x) m f km kf = record { at = (kf x).at }

module _ {S : Type 0} {P : S → Type 0} where
  pub Keeps-throw_if : (b : Bool) (e : Exception) → Keeps P (throw_if b e)
  unfolding ◌>>=◌
  Keeps-throw_if true e = record { at = λ s h. h }
  Keeps-throw_if false e = record { at = λ s h. h }

  pub Keeps-skip : (m : M S ⊤) → Keeps P (when false m)
  unfolding ◌>>=◌
  Keeps-skip m = record { at = λ s h. h }

  pub Keeps-when : (b : Bool) (m : M S ⊤) → Keeps P m → Keeps P (when b m)
  unfolding ◌>>=◌
  Keeps-when true m km = km
  Keeps-when false m km = record { at = λ s h. h }

module _ {S A B : Type 0} {P : S → Type 0} (next : A → M S B) where
  Keeps-continue :
      (outcome : Outcome A)
      → ((a : A) → outcome ≡ ok a → Keeps P (next a))
      → Keeps P (continue outcome next)
  unfolding ◌>>=◌
  Keeps-continue (ok a) later = later a refl
  Keeps-continue (throws e) later = record { at = λ s h. h }
  Keeps-continue hangs later = record { at = λ s h. h }

module _ {S A B : Type 0} {P : S → Type 0} where
  pub Keeps-bind :
      (method : M S A) (next : A → M S B)
      → Keeps P method
      → ((a : A) → Keeps P (next a))
      → Keeps P (method >>= next)
  unfolding ◌>>=◌
  Keeps-bind method next first later = record { at = both }
    where
      both : (s : S) → P s → P ((method >>= next) s).1
      both s h =
          let after = Keeps-continue next (method s).0 (λ a _. later a) in
          after.at (method s).1 (first.at s h)

  -- The rest of a block may use that a check passed.
  pub Keeps-bind_lift :
      (outcome : Outcome A) (next : A → M S B)
      → ((a : A) → outcome ≡ ok a → Keeps P (next a))
      → Keeps P (lift outcome >>= next)
  unfolding ◌>>=◌
  Keeps-bind_lift outcome next later = Keeps-continue next outcome later

module _ {S A : Type 0} {P : S → Type 0} where
  Keeps-settle : (c : M S ⊤) (r : Outcome A) → Keeps P c → Keeps P (settle c r)
  unfolding settle
  Keeps-settle c (ok a) kc = record { at = λ s h. h }
  Keeps-settle c (throws e) kc = Keeps-bind c (λ _. throw e) kc (λ _. Keeps-throw e)
  Keeps-settle c hangs kc = record { at = λ s h. h }

  pub Keeps-on_throw : (m : M S A) (c : M S ⊤) → Keeps P m → Keeps P c → Keeps P (on_throw m c)
  unfolding on_throw
  Keeps-on_throw m c km kc = record {
    at = λ s h. let (r, s') = m s in (Keeps-settle c r kc).at s' (km.at s h);
  }

module _ {S A : Type 0} {P : S → Type 0} where
  pub Keeps-for_each :
      (xs : List A) (body : A → M S ⊤) → ((x : A) → Keeps P (body x)) → Keeps P (for_each xs body)
  unfolding for_each
  Keeps-for_each [] body kb = Keeps-pure tt
  Keeps-for_each (x ∷ xs) body kb = Keeps-bind _ _ (kb x) (λ _. Keeps-for_each xs body kb)

pub ruleset keeps_rules = (
  Keeps-lift, Keeps-pure, Keeps-throw, Keeps-hang, Keeps-choose, Keeps-given, Keeps-throw_if,
  Keeps-when, Keeps-bind, Keeps-on_throw, Keeps-for_each,
)
