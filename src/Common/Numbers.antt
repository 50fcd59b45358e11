-- ===== src/Common/Numbers.antt =====
-- `parseUnsigned` of fpgactl/src/common.cpp, with what it relies on of `std::stoull` in base 0.
use mrs_fpga_toolkit.Base.{
  ℕ, suc, ◌+◌, ◌-◌, ◌*◌, ◌^◌, ◌%◌, Bool, true, false, ltb, leb, ◌==◌, ◌!=◌, ◌&&◌, ◌||◌,
  if◌then◌else◌, [], ◌∷◌, ◌++◌, length, Text, codes, Option, none, some,
}
use mrs_fpga_toolkit.Machine.{Outcome, ok, throws, error}
use mrs_fpga_toolkit.CommandText.{is_space}

-- The value of a digit or a letter; 36 for what is neither.
abbrev pub digit_value : ℕ → ℕ
digit_value c =
    if leb 48 c && leb c 57
    then c - 48
    else if leb 97 c && leb c 122
    then c - 87
    else if leb 65 c && leb c 90
    then c - 55
    else 36

-- The number at the front of a text, and how many digits it has.
unfoldable pub scan : ℕ → ℕ → ℕ → Text → ℕ × ℕ
scan base value count [] = (value, count)
scan base value count (c ∷ rest) =
    let further = scan base (value * base + digit_value c) (suc count) rest in
    if ltb (digit_value c) base then further else (value, count)

-- The leading blanks of a text, and what follows them.
unfoldable pub skip_blanks : ℕ → Text → ℕ × Text
skip_blanks count [] = (count, [])
skip_blanks count (c ∷ rest) =
    let further = skip_blanks (suc count) rest in if is_space c then further else (count, c ∷ rest)

-- What `stoull` makes of the digits: nothing where there are none, or where the value needs more than 64 bits.
abbrev pub converted : Bool → ℕ → ℕ × ℕ → Option (ℕ × ℕ)
converted negative before (value, count) =
    if count == 0 || leb (2 ^ 64) value
    then none
    else some (if negative then (2 ^ 64 - value) % 2 ^ 64 else value, before + count)

-- The base that the prefix selects.
unfoldable pub unsigned_part : Bool → ℕ → Text → Option (ℕ × ℕ)
unsigned_part negative before [] = none
unsigned_part negative before (a ∷ []) =
    converted negative before (scan (if a == 48 then 8 else 10) 0 0 (a ∷ []))
unsigned_part negative before (a ∷ b ∷ []) =
    converted negative before (scan (if a == 48 then 8 else 10) 0 0 (a ∷ b ∷ []))
unsigned_part negative before (a ∷ b ∷ c ∷ rest) =
    if a == 48 && (b == 120 || b == 88) && ltb (digit_value c) 16
    then converted negative (before + 2) (scan 16 0 0 (c ∷ rest))
    else converted negative before (scan (if a == 48 then 8 else 10) 0 0 (a ∷ b ∷ c ∷ rest))

unfoldable pub signed_part : ℕ × Text → Option (ℕ × ℕ)
signed_part (before, []) = none
signed_part (before, c ∷ rest) =
    if c == 45
    then unsigned_part true (suc before) rest
    else if c == 43
    then unsigned_part false (suc before) rest
    else unsigned_part false before (c ∷ rest)

-- `std::stoull(value, &consumed, 0)`: the number and `consumed`, or nothing where it throws.
abbrev pub stoull : Text → Option (ℕ × ℕ)
stoull value = signed_part (skip_blanks 0 value)

-- `value.empty() || value.front() == '-'`
abbrev pub starts_wrong : Text → Bool
starts_wrong [] = true
starts_wrong (c ∷ rest) = c == 45

abbrev pub bounded : Text → Text → ℕ → ℕ × ℕ → Outcome ℕ
bounded value name maximum (parsed, consumed) =
    if consumed != length value || ltb maximum parsed
    then throws (error (name ++ codes " is outside its accepted range: " ++ value))
    else ok parsed

unfoldable pub parse_unsigned : Text → Text → ℕ → Outcome ℕ
parse_unsigned value name maximum =
    if starts_wrong value
    then throws (error (codes "invalid " ++ name ++ codes ": " ++ value))
    else elim (stoull value) [
      | none ↦ throws (error (codes "invalid " ++ name ++ codes ": " ++ value))
      | some found ↦ bounded value name maximum found
    ]
