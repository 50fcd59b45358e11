-- ===== src/Pcie/Mrrs/Written.antt =====
-- What `setMrrs` of fpgactl/src/pcie.cpp writes, and what it has read back when it returns.
use mrs_fpga_toolkit.Base.{
  ℕ, zero, suc, ◌+◌, ◌*◌, ◌/◌, ◌%◌, ◌^◌, ◌<◌, ◌≡◌, ◌!=◌, refl, ap, sym, ◌∙◌, arith, bit_and, Bool,
  true, false, List, ◌∷◌, ◌++◌, Text, codes, some,
}
use mrs_fpga_toolkit.Base.Bits.{bit_and_low}
use mrs_fpga_toolkit.Machine.{M, ⊤, Outcome, pure, ok, throws, hangs, continue, throw_if, ◌>>=◌}
use mrs_fpga_toolkit.Machine.Keeps.{Keeps, keeps_rules}
use mrs_fpga_toolkit.Xdma.{Answer, call, done, open_user}
use mrs_fpga_toolkit.Xdma.User.{little_bytes, little_value}
use mrs_fpga_toolkit.Common.{Host}
use mrs_fpga_toolkit.PcieConfig.{PcieControl, decode_pcie_control}
use mrs_fpga_toolkit.Pcie.Inspect.{endpoint_path, read_config}
use mrs_fpga_toolkit.Pcie.Quiet.{read_config-Looks}
use mrs_fpga_toolkit.Pcie.Quiet.Effects.{Effect, device_write, Audited, audited, audited-Looking}
use mrs_fpga_toolkit.Pcie.Mrrs.{
  encode_mrrs, with_mrrs, exchange, update_mrrs, set_mrrs, report_mrrs,
}
use mrs_fpga_toolkit.Pcie.Mrrs.Field.{mrrs_changes_its_field, bit_and_join}

encode_size : (k : ℕ) → k < 6 → encode_mrrs (128 * 2 ^ k) ≡ some k
unfolding encode_mrrs
encode_size zero h = refl
encode_size (suc zero) h = refl
encode_size (suc (suc zero)) h = refl
encode_size (suc (suc (suc zero))) h = refl
encode_size (suc (suc (suc (suc zero)))) h = refl
encode_size (suc (suc (suc (suc (suc zero))))) h = refl
encode_size (suc (suc (suc (suc (suc (suc k)))))) h = absurd (omega arith)

bind_ok :
    {S A B : Type 0} (m : M S A) (f : A → M S B) {a : A} {s s' : S}
    → m s ≡ (ok a, s')
    → (m >>= f) s ≡ f a s'
unfolding ◌>>=◌
bind_ok {S} {A} m f e = ap (λ (p : Outcome A × S). continue p.0 f p.1) e

bind_pure : {S A B : Type 0} (a : A) (f : A → M S B) (s : S) → (pure a >>= f) s ≡ f a s
unfolding ◌>>=◌
bind_pure a f s = refl

after_bind :
    {S A B : Type 0} {P : S → Type 0} (m : M S A) (f : A → M S B) (s : S)
    → P (m s).1
    → ((a : A) → Keeps P (f a))
    → P ((m >>= f) s).1
unfolding ◌>>=◌
after_bind {S} {A} {B} {P} m f s h k = on (m s).0 (m s).1 h
  where
    on : (r : Outcome A) (s' : S) → P s' → P (continue r f s').1
    on (ok a) s' h = (k a).at s' h
    on (throws e) s' h = h
    on hangs s' h = h

bind_inv :
    {S A B : Type 0} (m : M S A) (f : A → M S B) (s : S) {b : B}
    → ((m >>= f) s).0 ≡ ok b
    → (a : A) × ((m s).0 ≡ ok a) × ((f a (m s).1).0 ≡ ok b)
unfolding ◌>>=◌
bind_inv {S} {A} {B} m f s {b} e = on (m s).0 (m s).1 e
  where
    on :
        (r : Outcome A) (s' : S)
        → (continue r f s').0 ≡ ok b
        → (a : A) × (r ≡ ok a) × ((f a s').0 ≡ ok b)
    on (ok a) s' e = (a, refl, e)
    on (throws x) s' e = absurd (cc)
    on hangs s' e = absurd (cc)

throw_if_inv :
    {S : Type 0} (b : Bool) (x : _) (s : S) {u : ⊤} → (throw_if b x s).0 ≡ ok u → b ≡ false
unfolding ◌>>=◌
throw_if_inv true x s e = absurd (cc)
throw_if_inv false x s e = refl

-- The request size field of a device control word.
abbrev pub size_of : ℕ → ℕ
size_of word = 128 * 2 ^ (word / 4096 % 8)

field_value : (v : ℕ) → bit_and v 0x7000 ≡ v / 4096 % 8 * 4096
field_value v =
    let split : v / 4096 * 2 ^ 12 + v % 4096 ≡ v = omega arith in
    omega (
      arith,
      ap (λ t. bit_and t 0x7000) split,
      bit_and_join (v / 4096) 7 12 (v % 4096) 0 (omega arith) (omega arith),
      bit_and_low 3 (v / 4096),
      bit_and_low 0 (v % 4096),
    )

same_field : (v w : ℕ) → bit_and v 0x7000 ≡ bit_and w 0x7000 → size_of v ≡ size_of w
same_field v w e =
    let fields : v / 4096 % 8 ≡ w / 4096 % 8 = omega (arith, e, field_value v, field_value w) in
    ap (λ (n : ℕ). 128 * 2 ^ n) fields

module _ {S : Type 0} (host : Host S) where
  other-Same :
      {A : Type 0} (x : List Effect) (f : Audited S → A × Audited S)
      → ((t : Audited S) → (f t).1.effects ≡ t.effects)
      → Keeps (λ t. t.effects ≡ x) (call f)
  unfolding call
  other-Same x f same = record { at = λ t h. same t ∙ h }

  exchange-writes :
      (fd offset updated : ℕ) (s : Audited S)
      → (exchange (audited host) fd offset updated s).1.effects
        ≡ device_write fd (little_bytes 2 updated) offset ∷ s.effects
  unfolding exchange call
  exchange-writes fd offset updated s =
      let x = device_write fd (little_bytes 2 updated) offset ∷ s.effects in
      let read_back = other-Same x ((audited host).system.pread fd offset) (λ t. refl) in
      let closed =
        other-Same {A = ⊤} x (λ t. (tt, (audited host).system.close_file fd t)) (λ t. refl) in
      after_bind {P = λ t. t.effects ≡ x} _ _ s refl (λ written. search keeps_rules depth 12)

  report-Same :
      (x : List Effect) (requested before updated verified : ℕ) (bdf : Text)
      → Keeps
          (λ t. t.effects ≡ x)
          (report_mrrs (audited host) bdf requested before updated verified)
  unfolding report_mrrs
  report-Same x requested before updated verified bdf =
      let said = λ (text : Text). other-Same x ((audited host).print text) (λ t. refl) in
      search (keeps_rules, said) depth 12

  report_inv :
      (requested before updated verified : ℕ) (bdf : Text) (t : Audited S)
      → (report_mrrs (audited host) bdf requested before updated verified t).0 ≡ ok tt
      → size_of verified ≡ size_of updated
  unfolding report_mrrs
  report_inv requested before updated verified bdf t e =
      let (u, passed, rest) = bind_inv _ _ t e in
      let equal : (bit_and verified 0x7000 != bit_and updated 0x7000) ≡ false =
        throw_if_inv _ _ t passed in
      same_field verified updated (ground (arith, equal))

  -- What is read at the place after the write.
  abbrev pub read_back : ℕ → ℕ → ℕ → Audited S → List ℕ
  read_back fd offset updated s =
      let (written, t) = (audited host).system.pwrite fd (little_bytes 2 updated) offset s in
      ((audited host).system.pread fd offset t).0.bytes

  exchange_inv :
      (fd offset updated verified : ℕ) (s : Audited S)
      → (exchange (audited host) fd offset updated s).0 ≡ ok verified
      → verified ≡ little_value (read_back fd offset updated s)
  unfolding exchange call ◌>>=◌
  exchange_inv fd offset updated verified s e = ground (arith, e)

  update_runs :
      (bdf path : Text) (requested encoded fd : ℕ) (config : List ℕ) (c : PcieControl)
      (s s2 s3 : Audited S)
      → endpoint_path (audited host) bdf s ≡ (ok path, s)
      → read_config (audited host) (path ++ codes "/config") s ≡ (ok config, s2)
      → decode_pcie_control config s2 ≡ (ok c, s2)
      → (audited host).system.open_file (path ++ codes "/config") open_user s2 ≡ (done fd, s3)
      → update_mrrs (audited host) bdf requested encoded s
        ≡ (exchange (audited host) fd (c.capability_offset + 8) (with_mrrs c.device_control encoded)
              >>= report_mrrs
                  (audited host)
                  bdf
                  requested
                  c.device_control
                  (with_mrrs c.device_control encoded))
            s3
  unfolding update_mrrs call
  update_runs bdf path requested encoded fd config c s s2 s3 e1 e2 e3 e4 =
      bind_ok _ _ e1
      ∙ bind_ok _ _ e2
      ∙ bind_ok _ _ e3
      ∙ bind_ok _ _ (ap (λ (p : Answer × Audited S). (ok p.0, p.1)) e4)
      ∙ bind_pure fd _ s3

  update_writes :
      (bdf path : Text) (requested encoded fd : ℕ) (config : List ℕ) (c : PcieControl)
      (s s2 s3 : Audited S)
      → endpoint_path (audited host) bdf s ≡ (ok path, s)
      → read_config (audited host) (path ++ codes "/config") s ≡ (ok config, s2)
      → decode_pcie_control config s2 ≡ (ok c, s2)
      → (audited host).system.open_file (path ++ codes "/config") open_user s2 ≡ (done fd, s3)
      → let at = c.capability_offset + 8 in
        let word = with_mrrs c.device_control encoded in
        let (r, s') = update_mrrs (audited host) bdf requested encoded s in
        (s'.effects ≡ device_write fd (little_bytes 2 word) at ∷ s.effects)
        × (r ≡ ok tt → size_of (little_value (read_back fd at word s3)) ≡ size_of word)
  update_writes bdf path requested encoded fd config c s s2 s3 e1 e2 e3 e4 =
      let at : ℕ = c.capability_offset + 8 in
      let word : ℕ = with_mrrs c.device_control encoded in
      let runs = update_runs bdf path requested encoded fd config c s s2 s3 e1 e2 e3 e4 in
      let looked : s2.effects ≡ s.effects =
        sym (ap (λ (p : Outcome (List ℕ) × Audited S). p.1.effects) e2)
        ∙ (read_config-Looks (audited host) (audited-Looking host (λ x. x ≡ s.effects))
              (path ++ codes "/config")).at
            s refl in
      let opened : s3.effects ≡ s2.effects =
        sym (ap (λ (p : Answer × Audited S). p.1.effects) e4) in
      let wrote =
        after_bind {P = λ t. t.effects ≡ device_write fd (little_bytes 2 word) at ∷ s3.effects}
          (exchange (audited host) fd at word)
          (report_mrrs (audited host) bdf requested c.device_control word) s3
          (exchange-writes fd at word s3)
          (λ verified. report-Same _ requested c.device_control word verified bdf) in
      (
        ap (λ (p : Outcome ⊤ × Audited S). p.1.effects) runs
            ∙ wrote
            ∙ ap (λ (x : List Effect). device_write fd (little_bytes 2 word) at ∷ x)
                (opened ∙ looked),
        λ e.
            let (verified, got, reported) =
              bind_inv (exchange (audited host) fd at word)
                (report_mrrs (audited host) bdf requested c.device_control word) s3
                (sym (ap (λ (p : Outcome ⊤ × Audited S). p.0) runs) ∙ e) in
            ap size_of (sym (exchange_inv fd at word verified s3 got))
            ∙ report_inv requested c.device_control word verified bdf _ reported,
      )

given_runs :
    {S : Type 0} (host : Host S) (bdf : Text) (k : ℕ) (s : Audited S)
    → k < 6
    → set_mrrs (audited host) bdf (128 * 2 ^ k) s ≡ update_mrrs (audited host) bdf (128 * 2 ^ k) k s
unfolding set_mrrs ◌>>=◌
given_runs host bdf k s small = rw (encode_size k small)

-- `setMrrs` with one of its six sizes, 128 to 4096, where the endpoint's configuration space is read and decoded as `c` and its
-- file is opened: the one effect on the host is one write of two bytes, at the device control word of the capability that was
-- decoded, little end first, whatever the later calls answer. The word written has the field of bits 12 to 14, from which
-- `decodePcieControl` takes the size, for the size asked for, and all other bits as they were. If it returns, what is read
-- back at that place has that size too.
pub set_mrrs_writes :
    {S : Type 0} (host : Host S) (bdf path : Text) (k fd : ℕ) (config : List ℕ) (c : PcieControl)
    (s s2 s3 : Audited S)
    → k < 6
    → c.device_control < 65536
    → endpoint_path (audited host) bdf s ≡ (ok path, s)
    → read_config (audited host) (path ++ codes "/config") s ≡ (ok config, s2)
    → decode_pcie_control config s2 ≡ (ok c, s2)
    → (audited host).system.open_file (path ++ codes "/config") open_user s2 ≡ (done fd, s3)
    → let at = c.capability_offset + 8 in
      let (r, s') = set_mrrs (audited host) bdf (128 * 2 ^ k) s in
      (word : ℕ) × (s'.effects ≡ device_write fd (little_bytes 2 word) at ∷ s.effects)
      × (size_of word ≡ 128 * 2 ^ k)
      × (word % 4096 ≡ c.device_control % 4096)
      × (word / 32768 ≡ c.device_control / 32768)
      × (word < 65536)
      × (r ≡ ok tt → size_of (little_value (read_back host fd at word s3)) ≡ 128 * 2 ^ k)
set_mrrs_writes {S} host bdf path k fd config c s s2 s3 small fits e1 e2 e3 e4 =
    let word : ℕ = with_mrrs c.device_control k in
    let runs = given_runs host bdf k s small in
    let wrote = update_writes host bdf path (128 * 2 ^ k) k fd config c s s2 s3 e1 e2 e3 e4 in
    let field =
      mrrs_changes_its_field c.device_control (128 * 2 ^ k) k (encode_size k small) fits in
    let size : size_of word ≡ 128 * 2 ^ k =
      sym (ap (λ (n : ℕ). 128 * 2 ^ n) (bit_and_low 3 (word / 4096))) ∙ field.0 in
    (
      word,
      ap (λ (p : Outcome ⊤ × Audited S). p.1.effects) runs ∙ wrote.0,
      size,
      field.1,
      field.2,
      field.3,
      λ e. wrote.1 (sym (ap (λ (p : Outcome ⊤ × Audited S). p.0) runs) ∙ e) ∙ size,
    )
