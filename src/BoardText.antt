-- ===== src/BoardText.antt =====
-- The product identifier of fpgactl/src/board.cpp, and its JSON form. A character is its byte.
use mrs_fpga_toolkit.Base.{
  ℕ, ◌+◌, ◌/◌, ◌%◌, ◌^◌, bit_and, ◌||◌, ltb, leb, ◌==◌, List, [], ◌∷◌, ◌++◌, if◌then◌else◌,
}

-- `result.resize(result.find(0))`
unfoldable pub until_zero : List ℕ → List ℕ
until_zero [] = []
until_zero (c ∷ rest) = let tail = until_zero rest in if c == 0 then [] else c ∷ tail

unfoldable pub decode_product_id : ℕ → List ℕ
decode_product_id value = until_zero (
    bit_and (value / 2 ^ 24) 0xff
    ∷ bit_and (value / 2 ^ 16) 0xff
    ∷ bit_and (value / 2 ^ 8) 0xff
    ∷ bit_and value 0xff
    ∷ [])

abbrev hex_digit : ℕ → ℕ
hex_digit d = if ltb d 10 then 48 + d else 87 + d

abbrev pub json_character : ℕ → List ℕ
json_character c =
    if c == 34
    then 92 ∷ 34 ∷ []
    else if c == 92
    then 92 ∷ 92 ∷ []
    else if c == 10
    then 92 ∷ 110 ∷ []
    else if c == 13
    then 92 ∷ 114 ∷ []
    else if c == 9
    then 92 ∷ 116 ∷ []
    else if ltb c 0x20 || leb 0x7f c
    then 92 ∷ 117 ∷ 48 ∷ 48 ∷ hex_digit (c / 16) ∷ hex_digit (c % 16) ∷ []
    else c ∷ []

unfoldable pub json_escape : List ℕ → List ℕ
json_escape [] = []
json_escape (c ∷ rest) = json_character c ++ json_escape rest
