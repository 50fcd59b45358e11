-- ===== src/Cli/Mode.antt =====
-- The permissions that `parseDeviceMode` of fpgactl/src/cli.cpp reads.
use mrs_fpga_toolkit.Base.{
  ℕ, suc, ◌+◌, ◌*◌, ◌<◌, ◌≡◌, ap, ◌∙◌, arith, false, [], ◌∷◌, Text, codes, some, ◌==◌,
}
use mrs_fpga_toolkit.Machine.{ok}
use mrs_fpga_toolkit.Common.Numbers.{digit_value, scan, skip_blanks, converted}
use mrs_fpga_toolkit.Pcie.{same_text}
use mrs_fpga_toolkit.Cli.{parse_device_mode, octal_part, in_mode_range}

digit_value_octal : (d : ℕ) → d < 8 → digit_value (48 + d) ≡ d
digit_value_octal d h = ground arith

scan_step :
    (value count d : ℕ) (rest : Text)
    → d < 8
    → scan 8 value count ((48 + d) ∷ rest) ≡ scan 8 (value * 8 + d) (suc count) rest
unfolding scan
scan_step value count d rest h = ground (arith, digit_value_octal d h)

skip_blanks_octal :
    (d : ℕ) (rest : Text) → d < 8 → skip_blanks 0 ((48 + d) ∷ rest) ≡ (0, (48 + d) ∷ rest)
unfolding skip_blanks
skip_blanks_octal d rest h = ground arith

module _ (d e f : ℕ) (hd : d < 8) (he : e < 8) (hf : f < 8) where
  abbrev digits_text : Text
  digits_text = (48 + d) ∷ (48 + e) ∷ (48 + f) ∷ []

  abbrev spelled : ℕ
  spelled = d * 64 + e * 8 + f

  scan_octal : scan 8 0 0 digits_text ≡ (spelled, 3)
  unfolding scan
  scan_octal =
      scan_step 0 0 d ((48 + e) ∷ (48 + f) ∷ []) hd
      ∙ scan_step (0 * 8 + d) 1 e ((48 + f) ∷ []) he
      ∙ scan_step ((0 * 8 + d) * 8 + e) 2 f [] hf
      ∙ ap (λ (v : ℕ). (v, 3)) (omega arith)

  converted_octal : converted false 0 (spelled, 3) ≡ some (spelled, 3)
  converted_octal = ground arith

  octal_part_octal : octal_part (0, digits_text) ≡ some (spelled, 3)
  unfolding octal_part
  octal_part_octal =
      let numbers = ap (converted false 0) scan_octal ∙ converted_octal in
      let minus : (48 + d == 45) ≡ false = ground arith in
      let plus : (48 + d == 43) ≡ false = ground arith in rw (minus, plus) numbers

  is_named : (name : Text) (c : ℕ) → 55 < c → same_text digits_text (c ∷ name) ≡ false
  is_named name c h = let other : (48 + d == c) ≡ false = ground arith in rw other

  in_mode_range_octal : in_mode_range digits_text (spelled, 3) ≡ ok (some spelled)
  in_mode_range_octal = ground arith

-- Three octal digits are the permissions that they spell, in each of the 512 cases.
pub parse_device_mode_octal :
    (d e f : ℕ)
    → d < 8
    → e < 8
    → f < 8
    → parse_device_mode ((48 + d) ∷ (48 + e) ∷ (48 + f) ∷ []) ≡ ok (some (d * 64 + e * 8 + f))
unfolding parse_device_mode
parse_device_mode_octal d e f hd he hf =
    let blanks = skip_blanks_octal d ((48 + e) ∷ (48 + f) ∷ []) hd in
    rw
      (
        is_named d e f hd he hf (codes "reserve") 112 (omega arith),
        is_named d e f hd he hf (codes "one") 110 (omega arith),
        blanks,
        octal_part_octal d e f hd he hf,
      )
      (in_mode_range_octal d e f hd he hf)
