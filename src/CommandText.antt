-- ===== src/CommandText.antt =====
-- Lists and commands as text: `splitList`, `splitCommandArguments` and `displayCommand` of
-- fpgactl/src/common.cpp. A character is its byte.
pub mod RoundTrip
mod Tests
use mrs_fpga_toolkit.Base.{
  Text, ℕ, Bool, true, false, not, ◌&&◌, ◌||◌, leb, ◌==◌, ◌!=◌, List, [], ◌∷◌, ◌++◌, if◌then◌else◌,
}
use mrs_fpga_toolkit.Machine.{Outcome, ok, throws, runtime_error}

abbrev pub apostrophe : ℕ
apostrophe = 39

abbrev pub quotation : ℕ
quotation = 34

abbrev pub backslash : ℕ
backslash = 92

abbrev pub blank : ℕ
blank = 32

-- `std::isspace` in the C locale.
abbrev pub is_space : ℕ → Bool
is_space c = c == 32 || leb 9 c && leb c 13

abbrev pub is_empty : Text → Bool
is_empty [] = true
is_empty (c ∷ rest) = false

-- `result` and `item` of `splitList`.
unfoldable pub split_items : List Text → Text → Text → List Text
split_items result item [] = if is_empty item then result else result ++ item ∷ []
split_items result item (c ∷ rest) =
    let pushed = split_items (result ++ item ∷ []) [] rest in
    let skipped = split_items result item rest in
    let extended = split_items result (item ++ c ∷ []) rest in
    if c == 44 || is_space c then if is_empty item then skipped else pushed else extended

unfoldable pub split_list : Text → List Text
split_list value = split_items [] [] value

-- The local variables of `splitCommandArguments`; `quote` is 0 outside quotes.
pub record Splitting : Type 0 where
  pub result : List Text
  pub word : Text
  pub quote : ℕ
  pub escaped : Bool
  pub started : Bool

abbrev pub taken : ℕ → Splitting → Splitting
taken c s = record s { word = s.word ++ c ∷ []; escaped = false; started = true }

-- The body of the loop.
unfoldable pub split_step : ℕ → Splitting → Splitting
split_step c s =
    if s.escaped
    then taken c s
    else if c == backslash && s.quote != apostrophe
    then record s { escaped = true; started = true }
    else if s.quote != 0
    then if c == s.quote then record s { quote = 0; started = true } else taken c s
    else if c == apostrophe || c == quotation
    then record s { quote = c; started = true }
    else if is_space c
    then if s.started
      then record s { result = s.result ++ s.word ∷ []; word = []; started = false }
      else s
    else taken c s

unfoldable pub split_loop : Text → Splitting → Splitting
split_loop [] s = s
split_loop (c ∷ rest) s = split_loop rest (split_step c s)

unfoldable pub split_finish : Splitting → Outcome (List Text)
split_finish s =
    if s.escaped || s.quote != 0
    then throws (runtime_error "unterminated quote or escape in command arguments")
    else if s.started
    then ok (s.result ++ s.word ∷ [])
    else ok s.result

abbrev pub unstarted : List Text → Splitting
unstarted result = record {
  result = result;
  word = [];
  quote = 0;
  escaped = false;
  started = false;
}

unfoldable pub split_command_arguments : Text → Outcome (List Text)
split_command_arguments value = split_finish (split_loop value (unstarted []))

-- `std::quoted`.
unfoldable pub escaped_text : Text → Text
escaped_text [] = []
escaped_text (c ∷ rest) =
    let tail = escaped_text rest in
    if c == quotation || c == backslash then backslash ∷ c ∷ tail else c ∷ tail

abbrev pub quoted : Text → Text
quoted item = quotation ∷ (escaped_text item ++ quotation ∷ [])

unfoldable pub display_rest : List Text → Text
display_rest [] = []
display_rest (item ∷ rest) = blank ∷ (quoted item ++ display_rest rest)

unfoldable pub display_command : List Text → Text
display_command [] = []
display_command (item ∷ rest) = quoted item ++ display_rest rest
