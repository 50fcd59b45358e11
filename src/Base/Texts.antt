-- ===== src/Base/Texts.antt =====
-- Texts as the list of their bytes.
use Prim.Native.Char.{code}
use Prim.Native.String.{String}
use Prim.Native.Nat.{ℕ, zero, suc, ◌+◌, ◌/◌, ◌%◌}
use mathlib.Core.List.{List, [], ◌∷◌, ◌++◌}
use mrs_fpga_toolkit.Base.Tests.{ltb, ◌==◌, if◌then◌else◌}

abbrev pub Text : Type 0
Text = List ℕ

-- An ASCII literal.
abbrev pub codes : String → Text
codes String.[] = []
codes (String.◌∷◌ c s) = code c ∷ codes s

abbrev pub hex_digit : ℕ → ℕ
hex_digit d = if ltb d 10 then 48 + d else 87 + d

-- The digits of a number in a base of at most 16, in lower case.
unfoldable pub digits : ℕ → ℕ → ℕ → Text
digits base zero n = []
digits base (suc rounds) n =
    let higher = digits base rounds (n / base) in
    (if n / base == 0 then [] else higher) ++ hex_digit (n % base) ∷ []

-- `std::to_string`: twenty digits are enough for 64 bits.
abbrev pub to_string : ℕ → Text
to_string n = digits 10 20 n

-- `std::hex`
abbrev pub to_hex : ℕ → Text
to_hex n = digits 16 16 n
