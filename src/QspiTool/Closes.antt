-- ===== src/QspiTool/Closes.antt =====
-- The device file of a command of fpgactl/src/qspi.cpp, on every way out.
use mrs_fpga_toolkit.Base.{ℕ, ◌≡◌, ◌≢◌, refl, ap, ◌∙◌, List, [], ◌∷◌, Text, Option, none, some}
use mrs_fpga_toolkit.Machine.{M, ⊤, Bus, Outcome, ok, throws, hangs, ◌>>=◌}
use mrs_fpga_toolkit.Machine.Keeps.{Keeps}
use mrs_fpga_toolkit.Machine.Ends.{Ends, Ends-bind, Ends-pure, Ends-on_throw, ends_rules}
use mrs_fpga_toolkit.Xdma.Deadline.Finish.{Ends-call}
use mrs_fpga_toolkit.Machine.Contract.{
  Contract, Meets, Contract-bind, Contract-pure, Contract-throw, Contract-of_keeps,
  Contract-on_throw,
}
use mrs_fpga_toolkit.Xdma.{Answer, done, failed, System, call, open_user}
use mrs_fpga_toolkit.Xdma.User.{XdmaUser, xdma_user, opened, close}
use mrs_fpga_toolkit.Common.{Host}
use mrs_fpga_toolkit.QspiTool.{scoped, user_bus, with_user}

-- What opening and closing do to the descriptors that are open, the newest first.
pub record IsOpening {S : Type 0} (sys : System S) (files : S → List ℕ) : Type 0 where
  pub opens :
      (path : Text) (flags n : ℕ) (s : S)
      → (sys.open_file path flags s).0 ≡ done n
      → files (sys.open_file path flags s).1 ≡ n ∷ files s
  pub fails :
      (path : Text) (flags e : ℕ) (s : S)
      → (sys.open_file path flags s).0 ≡ failed e
      → files (sys.open_file path flags s).1 ≡ files s
  pub closes : (n : ℕ) (ts : List ℕ) (s : S) → files s ≡ n ∷ ts → files (sys.close_file n s) ≡ ts

Contract-scoped :
    {S A : Type 0} {P R E : S → Type 0} (cleanup : M S ⊤) (body : M S A)
    → Contract P body (λ _. R) R
    → Contract R cleanup (λ _. E) E
    → Contract P (scoped cleanup body) (λ _. E) E
Contract-scoped cleanup body k c =
    Contract-bind _ _ (Contract-on_throw body cleanup k c)
      (λ a. Contract-bind _ _ c (λ _. Contract-pure a (λ s h. h)))

module _ {S : Type 0} (host : Host S) (files : S → List ℕ)
    (opening : IsOpening host.system files) where
  abbrev Open : List ℕ → S → Type 0
  Open ts s = files s ≡ ts

  abbrev owned : XdmaUser → List ℕ → List ℕ
  owned u ts = elim u.fd [ none ↦ ts | some fd ↦ fd ∷ ts ]

  opened-Open :
      (ts : List ℕ) (path : Text)
      → Contract
          (Open ts)
          (call (host.system.open_file path open_user) >>= opened host.system path)
          (λ u. Open (owned u ts))
          (Open ts)
  unfolding call ◌>>=◌
  opened-Open ts path = record {
    at = λ s h.
        on (host.system.open_file path open_user s).0 (host.system.open_file path open_user s).1
          (λ n e. opening.opens path open_user n s e ∙ ap (λ t. n ∷ t) h)
          (λ e x. opening.fails path open_user e s x ∙ h);
  }
    where
      on :
          (a : Answer) (s' : S)
          → ((n : ℕ) → a ≡ done n → files s' ≡ n ∷ ts)
          → ((e : ℕ) → a ≡ failed e → files s' ≡ ts)
          → Meets
              (λ u. Open (owned u ts))
              (Open ts)
              (opened host.system path a s').0
              (opened host.system path a s').1
      on (done n) s' good bad = good n refl
      on (failed e) s' good bad = bad e refl

  xdma_user-Open :
      (ts : List ℕ) (path : Text)
      → Contract (Open ts) (xdma_user host.system path) (λ u. Open (owned u ts)) (Open ts)
  unfolding xdma_user
  xdma_user-Open ts [] = Contract-throw _ (λ s h. h)
  xdma_user-Open ts (c ∷ path) = opened-Open ts (c ∷ path)

  close-Open :
      (ts : List ℕ) (fd : Option ℕ) (path : Text)
      → Contract
          (Open (owned record { fd = fd; path = path } ts))
          (close host.system record { fd = fd; path = path })
          (λ _. Open ts)
          (Open ts)
  unfolding close ◌>>=◌
  close-Open ts none path = record { at = λ s h. h }
  close-Open ts (some fd) path = record { at = λ s h. opening.closes fd ts s h }

  with_user-Open :
      {A : Type 0} (ts : List ℕ) (rounds : ℕ) (device : Text) (body : Bus S → M S A)
      → ((u : XdmaUser) (us : List ℕ) → Keeps (Open us) (body (user_bus host rounds u)))
      → Contract (Open ts) (with_user host rounds device body) (λ _. Open ts) (Open ts)
  unfolding with_user
  with_user-Open ts rounds device body quiet = Contract-bind _ _ (xdma_user-Open ts device) (λ u.
      Contract-scoped _ _ (Contract-of_keeps _ (quiet u (owned u ts)))
        (Contract-bind _ _ (close-Open ts u.fd u.path) (λ _. Contract-pure tt (λ s h. h))))

opened-Ends : {S : Type 0} (sys : System S) (path : Text) (a : Answer) → Ends (opened sys path a)
opened-Ends sys path (done fd) = search ends_rules
opened-Ends sys path (failed e) = search ends_rules

xdma_user-Ends : {S : Type 0} (sys : System S) (path : Text) → Ends (xdma_user sys path)
unfolding xdma_user
xdma_user-Ends sys [] = search ends_rules
xdma_user-Ends sys (c ∷ path) = search (ends_rules, opened-Ends, Ends-call) depth 9

close-Ends :
    {S : Type 0} (sys : System S) (fd : Option ℕ) (path : Text)
    → Ends (close sys record { fd = fd; path = path })
unfolding close
close-Ends sys none path = search ends_rules
close-Ends sys (some fd) path = record { at = λ s e. cc }

with_user-Ends :
    {S A : Type 0} (host : Host S) (rounds : ℕ) (device : Text) (body : Bus S → M S A)
    → ((u : XdmaUser) → Ends (body (user_bus host rounds u)))
    → Ends (with_user host rounds device body)
unfolding with_user
with_user-Ends host rounds device body ends =
    Ends-bind _ _ (xdma_user-Ends host.system device) (λ u.
      let closing = Ends-bind _ _ (close-Ends host.system u.fd u.path) (λ _. Ends-pure tt) in
      Ends-bind _ _ (Ends-on_throw _ _ (ends u) closing)
        (λ a. Ends-bind _ _ closing (λ _. Ends-pure a)))

-- A block of work on the registers behind a device file gives the file back: where the system opens and closes descriptors as
-- documented, and the work, on the registers of whatever `XDMAUser` the block opened, comes to an end and leaves the open
-- descriptors alone, the block comes to an end, and whether it returns or throws, at the opening or in the work, leaves open
-- what was open before.
pub with_user_closes :
    {S A : Type 0} (host : Host S) (files : S → List ℕ) (rounds : ℕ) (device : Text)
    (body : Bus S → M S A) (s : S)
    → IsOpening host.system files
    → ((u : XdmaUser) → Ends (body (user_bus host rounds u)))
    → ((u : XdmaUser) (us : List ℕ) → Keeps (λ t. files t ≡ us) (body (user_bus host rounds u)))
    → let (r, s') = with_user host rounds device body s in (r ≢ hangs) × (files s' ≡ files s)
with_user_closes {S} {A} host files rounds device body s opening ends quiet =
    let (r, s') = with_user host rounds device body s in
    let stops = (with_user-Ends host rounds device body ends).at s in
    (
      stops,
      on r s' stops
          ((with_user-Open host files opening (files s) rounds device body quiet).at s refl),
    )
  where
    on :
        (r : Outcome A) (s' : S)
        → r ≢ hangs
        → Meets (λ _. Open host files opening (files s)) (Open host files opening (files s)) r s'
        → files s' ≡ files s
    on (ok a) s' stops h = h
    on (throws e) s' stops h = h
    on hangs s' stops h = absurd (stops refl)
