-- ===== src/Machine/Monad.antt =====
-- Exceptions, outcomes, the monad of methods, and the interface of the register transport.
use mrs_fpga_toolkit.Base.{ℕ, Option, none, some, Bool, true, false, String, List, [], ◌∷◌}

-- The exceptions that the library and the tool throw. `flash_error` is a runtime error whose message is
-- put together from three parts; the messages of the next two end in an offset and a
-- status word, those of `error` (a runtime error), `timeout_error` (an XDMA timeout) and `bad_argument` (an invalid argument) are given byte
-- by byte, and `system_error` has an operation and `errno`.
pub data Exception : Type 0 where
  invalid_argument : String → Exception
  out_of_range : String → Exception
  length_error : String → Exception
  runtime_error : String → Exception
  xdma_timeout : String → Exception
  command_error : ℕ → Exception
  flash_error : String → String → String → Exception
  verification_failed : ℕ → Exception
  status_error : ℕ → Exception
  error : List ℕ → Exception
  bad_argument : List ℕ → Exception
  system_error : List ℕ → ℕ → Exception
  timeout_error : List ℕ → Exception

-- `hangs` is a loop that did not end within the rounds that the model gives it.
pub data Outcome (A : Type 0) : Type 0 where
  ok : A → Outcome A
  throws : Exception → Outcome A
  hangs : Outcome A

abbrev pub ⊤ : Type 0
⊤ = Unit

-- A method over states `S`.
abbrev pub M : Type 0 → Type 0 → Type 0
M S A = S → Outcome A × S

module _ {S A : Type 0} where
  unfoldable pub pure : A → M S A
  pure a s = (ok a, s)

  unfoldable pub throw : Exception → M S A
  throw e s = (throws e, s)

  unfoldable pub lift : Outcome A → M S A
  lift r s = (r, s)

  unfoldable pub hang : M S A
  hang s = (hangs, s)

-- `if (test) throw e;`
unfoldable pub throw_if : {S : Type 0} → Bool → Exception → M S ⊤
throw_if true e s = (throws e, s)
throw_if false e s = (ok tt, s)

-- `if (test) m else n` on methods.
unfoldable pub choose : {S A : Type 0} → Bool → M S A → M S A → M S A
choose true m n s = m s
choose false m n s = n s

-- `if (optional) f(*optional) else m` on methods.
unfoldable pub given : {S A B : Type 0} → Option A → M S B → (A → M S B) → M S B
given none m f s = m s
given (some a) m f s = f a s

-- `if (test) body;`
unfoldable pub when : {S : Type 0} → Bool → M S ⊤ → M S ⊤
when true m s = m s
when false m s = (ok tt, s)

module _ {S A B : Type 0} where
  abbrev pub continue : Outcome A → (A → M S B) → M S B
  continue (ok a) f s = f a s
  continue (throws e) f s = (throws e, s)
  continue hangs f s = (hangs, s)

infixl 5 ◌>>=◌ ◌>>◌
-- Opening this opens all that methods are built from.
unfoldable pub ◌>>=◌ : {S A B : Type 0} → M S A → (A → M S B) → M S B
unfolding pure throw lift hang throw_if choose given when
◌>>=◌ m f s = let (r, s') = m s in continue r f s'

abbrev pub ◌>>◌ : {S B : Type 0} → M S ⊤ → M S B → M S B
m >> k = m >>= λ _. k

unfoldable pub settle : {S A : Type 0} → M S ⊤ → Outcome A → M S A
unfolding ◌>>=◌
settle cleanup (ok a) = pure a
settle cleanup (throws e) = cleanup >> throw e
settle cleanup hangs = hang

-- `for (x : xs) body(x);`
unfoldable pub for_each : {S A : Type 0} → List A → (A → M S ⊤) → M S ⊤
unfolding ◌>>=◌
for_each [] body = pure tt
for_each (x ∷ xs) body = body x >> for_each xs body

-- `try { m } catch (...) { cleanup; throw; }`
unfoldable pub on_throw : {S A : Type 0} → M S A → M S ⊤ → M S A
unfolding settle
on_throw m cleanup s = let (r, s') = m s in settle cleanup r s'

-- `try { m } catch (...) {}`
unfoldable pub discard : {S : Type 0} → M S ⊤ → M S ⊤
discard m s = let (r, s') = m s in elim r [ hangs ↦ (hangs, s') | _ ↦ (ok tt, s') ]

-- `RegisterAccess`, `std::chrono::steady_clock::now` in nanoseconds, `std::this_thread::sleep_for`.
pub record Bus (S : Type 0) : Type 0 where
  pub read_reg : ℕ → M S ℕ
  pub write_reg : ℕ → ℕ → M S ⊤
  pub now : S → ℕ × S
  pub sleep_for : ℕ → S → S

module _ {S : Type 0} (bus : Bus S) where
  unfoldable pub clock_now : M S ℕ
  clock_now s = let (t, s') = bus.now s in (ok t, s')

  unfoldable pub sleep : ℕ → M S ⊤
  sleep ns s = (ok tt, bus.sleep_for ns s)
