-- ===== src/Pcie/Mrrs/Field.antt =====
-- The field of the device control word that `setMrrs` changes.
use mrs_fpga_toolkit.Base.{
  ℕ, zero, suc, ◌+◌, ◌*◌, ◌/◌, ◌%◌, ◌^◌, ◌<◌, ◌≡◌, ap, ◌∙◌, arith, bit_and, bit_or, min, max, some,
}
use mrs_fpga_toolkit.Base.Bits.{
  double_pow, bit_at, bit_and_single, bit_or_join, bit_and_low, bit_and_step, bit_or_step,
  zero-bit_or, zero-bit_and, bit_or-zero,
}
use mrs_fpga_toolkit.Pcie.Mrrs.{encode_mrrs, with_mrrs}

encode_small :
    (requested encoded : ℕ)
    → encode_mrrs requested ≡ some encoded
    → (encoded < 6) × (128 * 2 ^ encoded ≡ requested)
unfolding encode_mrrs
encode_small requested encoded h = ground arith

module _ (h h' : ℕ) where
  pub bit_and_join :
      (k l l' : ℕ)
      → l < 2 ^ k
      → l' < 2 ^ k
      → bit_and (h * 2 ^ k + l) (h' * 2 ^ k + l') ≡ bit_and h h' * 2 ^ k + bit_and l l'
  bit_and_join zero zero zero a b =
      let e : h * 2 ^ 0 + 0 ≡ h = omega arith in
      let e' : h' * 2 ^ 0 + 0 ≡ h' = omega arith in
      omega
        (arith, ap (λ t. bit_and t (h' * 2 ^ 0 + 0)) e, ap (λ t. bit_and h t) e', zero-bit_and 0)
  bit_and_join zero zero (suc l') a b = absurd (omega arith)
  bit_and_join zero (suc l) l' a b = absurd (omega arith)
  bit_and_join (suc k) l l' a b =
      let x : ℕ = h * 2 ^ suc k + l in
      let y : ℕ = h' * 2 ^ suc k + l' in
      let half : x / 2 ≡ h * 2 ^ k + l / 2 = omega (arith, double_pow h k) in
      let half' : y / 2 ≡ h' * 2 ^ k + l' / 2 = omega (arith, double_pow h' k) in
      let rest =
        bit_and_join k (l / 2) (l' / 2) (omega (arith, double_pow 1 k))
          (omega (arith, double_pow 1 k)) in
      let whole : bit_and x y
          ≡ bit_and (h * 2 ^ k + l / 2) (h' * 2 ^ k + l' / 2) * 2 + min (x % 2) (y % 2) =
        bit_and_step x y ∙ ap (λ z. z * 2 + min (x % 2) (y % 2)) (rw (half, half')) in
      omega (
        arith,
        whole,
        rest,
        bit_and_step l l',
        double_pow h k,
        double_pow h' k,
        double_pow (bit_and h h') k,
      )

  bit_or_join_both :
      (k l l' : ℕ)
      → l < 2 ^ k
      → l' < 2 ^ k
      → bit_or (h * 2 ^ k + l) (h' * 2 ^ k + l') ≡ bit_or h h' * 2 ^ k + bit_or l l'
  bit_or_join_both zero zero zero a b =
      let e : h * 2 ^ 0 + 0 ≡ h = omega arith in
      let e' : h' * 2 ^ 0 + 0 ≡ h' = omega arith in
      omega (arith, ap (λ t. bit_or t (h' * 2 ^ 0 + 0)) e, ap (λ t. bit_or h t) e', zero-bit_or 0)
  bit_or_join_both zero zero (suc l') a b = absurd (omega arith)
  bit_or_join_both zero (suc l) l' a b = absurd (omega arith)
  bit_or_join_both (suc k) l l' a b =
      let x : ℕ = h * 2 ^ suc k + l in
      let y : ℕ = h' * 2 ^ suc k + l' in
      let half : x / 2 ≡ h * 2 ^ k + l / 2 = omega (arith, double_pow h k) in
      let half' : y / 2 ≡ h' * 2 ^ k + l' / 2 = omega (arith, double_pow h' k) in
      let rest =
        bit_or_join_both k (l / 2) (l' / 2) (omega (arith, double_pow 1 k))
          (omega (arith, double_pow 1 k)) in
      let whole : bit_or x y
          ≡ bit_or (h * 2 ^ k + l / 2) (h' * 2 ^ k + l' / 2) * 2 + max (x % 2) (y % 2) =
        bit_or_step x y ∙ ap (λ z. z * 2 + max (x % 2) (y % 2)) (rw (half, half')) in
      omega (
        arith,
        whole,
        rest,
        bit_or_step l l',
        double_pow h k,
        double_pow h' k,
        double_pow (bit_or h h') k,
      )

-- The mask keeps the low twelve bits and the highest.
kept : (word : ℕ) → word < 65536 → bit_and word 0x8fff ≡ word / 32768 * 32768 + word % 4096
kept word small =
    let q : ℕ = word / 4096 in
    let split : q * 2 ^ 12 + word % 4096 ≡ word = omega arith in
    let high : bit_and q 8 ≡ bit_at 3 q * 8 = bit_and_single 3 q in
    omega (
      arith,
      ap (λ t. bit_and t 0x8fff) split,
      bit_and_join q 8 12 (word % 4096) 4095 (omega arith) (omega arith),
      bit_and_low 12 (word % 4096),
      high,
    )

plus_zero : (n : ℕ) → n ≡ n + 0
plus_zero n = omega arith

regroup : (high low : ℕ) → high * 32768 + low ≡ high * 2 ^ 3 * 2 ^ 12 + low
regroup high low = omega arith

with_mrrs_value :
    (word encoded : ℕ)
    → word < 65536
    → encoded < 8
    → with_mrrs word encoded ≡ word / 32768 * 32768 + encoded * 4096 + word % 4096
with_mrrs_value word encoded small fits =
    let high : ℕ = word / 32768 in
    let low : ℕ = word % 4096 in
    omega (
      arith,
      ap (λ t. bit_or t (encoded * 2 ^ 12)) (kept word small),
      ap (λ t. bit_or (high * 32768 + low) t) (plus_zero (encoded * 2 ^ 12)),
      ap (λ t. bit_or t (encoded * 2 ^ 12 + 0)) (regroup high low),
      bit_or_join_both (high * 2 ^ 3) encoded 12 low 0 (omega arith) (omega arith),
      bit_or_join 3 high encoded fits,
      bit_or-zero low,
    )

-- The word with a new size: the field of bits 12 to 14 is that of the size, and all other bits of the sixteen are as they were.
pub mrrs_changes_its_field :
    (word requested encoded : ℕ)
    → encode_mrrs requested ≡ some encoded
    → word < 65536
    → let updated = with_mrrs word encoded in
      (128 * 2 ^ bit_and (updated / 2 ^ 12) 0x7 ≡ requested)
      × (updated % 4096 ≡ word % 4096)
      × (updated / 32768 ≡ word / 32768)
      × (updated < 65536)
mrrs_changes_its_field word requested encoded valid small =
    let (fits, size) = encode_small requested encoded valid in
    let value = with_mrrs_value word encoded small (omega arith) in
    let field : bit_and (with_mrrs word encoded / 2 ^ 12) 0x7 ≡ encoded =
      omega (arith, value, bit_and_low 3 (with_mrrs word encoded / 2 ^ 12)) in
    (
      ap (λ t. 128 * 2 ^ t) field ∙ size,
      omega (arith, value),
      omega (arith, value),
      omega (arith, value),
    )
