-- ===== src/Jtag.antt =====
-- fpgactl/src/jtag.cpp: the data of a JTAG command, and what is read from the answers of the loader.
-- The regular expressions are written out as functions of the text that they search.
pub mod Loader
pub mod Run
pub mod Reads
mod Tests
use mrs_fpga_toolkit.Base.{
  ℕ, zero, suc, ◌+◌, Bool, true, false, not, leb, ◌==◌, ◌&&◌, ◌||◌, if◌then◌else◌, List, [], ◌∷◌,
  ◌++◌, map, take, Text, codes, to_string, Option, none, some,
}
use mrs_fpga_toolkit.CommandText.{is_space, is_empty}
use mrs_fpga_toolkit.Common.Numbers.{skip_blanks}
use mrs_fpga_toolkit.Common.Process.{is_hex_digit}
use mrs_fpga_toolkit.Common.Files.{last_component}
use mrs_fpga_toolkit.Pcie.{PcieOptions, to_lower, starts_with}

pub data JtagAction : Type 0 where
  show : JtagAction
  program_direct : JtagAction
  program_flash : JtagAction

pub record JtagFlashProfile : Type 0 where
  pub board : Text
  pub model : Text
  pub capacity : ℕ

pub record JtagCommand : Type 0 where
  pub action : JtagAction
  pub image : Option Text
  pub loader : Text
  pub cable : Text
  pub frequency : ℕ
  pub serial : Option Text
  pub loader_arguments : List Text
  pub file_type : Option Text
  pub offset : ℕ
  pub fpga_part : Text
  pub expected_idcode : Option ℕ
  pub idcode_mask : ℕ
  pub confirmed : Bool
  pub reload : Bool
  pub pcie : PcieOptions

abbrev pub is_show : JtagAction → Bool
is_show show = true
is_show program_direct = false
is_show program_flash = false

abbrev pub is_flash : JtagAction → Bool
is_flash show = false
is_flash program_direct = false
is_flash program_flash = true

abbrev pub is_direct : JtagAction → Bool
is_direct show = false
is_direct program_direct = true
is_direct program_flash = false

abbrev serial_words : Option Text → List Text
serial_words none = []
serial_words (some serial) = codes "--ftdi-serial" ∷ serial ∷ []

unfoldable pub loader_base_command : JtagCommand → List Text
loader_base_command o =
    (o.loader ∷ codes "--cable" ∷ o.cable ∷ codes "--freq" ∷ to_string o.frequency ∷ [])
    ++ serial_words o.serial
    ++ o.loader_arguments

-- `\w`
abbrev pub is_word : ℕ → Bool
is_word c = leb 48 c && leb c 57 || leb 65 c && leb c 90 || leb 97 c && leb c 122 || c == 95

-- What follows a prefix, in upper or lower case.
unfoldable pub after_prefix : Text → Text → Option Text
after_prefix [] text = some text
after_prefix (p ∷ prefix) [] = none
after_prefix (p ∷ prefix) (c ∷ text) =
    let further = after_prefix prefix text in if p == to_lower c then further else none

-- The hexadecimal digits at the front, if a word ends with them.
unfoldable pub hex_word : Text → Option Text
hex_word [] = some []
hex_word (c ∷ rest) =
    let further = hex_word rest in
    if is_hex_digit c
    then elim further [ none ↦ none | some digits ↦ some (c ∷ digits) ]
    else if is_word c
    then none
    else some []

abbrev prefixed : Text → Option Text → Option Text
prefixed start none = none
prefixed start (some []) = none
prefixed start (some (d ∷ digits)) = some (start ++ d ∷ digits)

abbrev hex_number : ℕ × Text → Option Text
hex_number (zero, rest) = none
hex_number (suc n, rest) = elim (after_prefix (codes "0x") rest) [
  | none ↦ none
  | some digits ↦ prefixed (take 2 rest) (hex_word digits)
]

-- `idcode\s+(0x[0-9a-f]+)\b` at the front, in upper or lower case.
unfoldable pub idcode_here : Text → Option Text
idcode_here text = elim (after_prefix (codes "idcode") text) [
  | none ↦ none
  | some rest ↦ hex_number (skip_blanks 0 rest)
]

-- The first match; `boundary` says that no word goes on here.
unfoldable pub find_idcode : Bool → Text → Option Text
find_idcode boundary [] = none
find_idcode boundary (c ∷ rest) =
    let later = find_idcode (not (is_word c)) rest in
    elim (if boundary then idcode_here (c ∷ rest) else none) [
      | some found ↦ some found
      | none ↦ later
    ]

abbrev pub ends_line : ℕ → Bool
ends_line c = c == 10 || c == 13

-- `[ \t]*FAIL([\r\n]|$)` at the front.
unfoldable pub fail_line : Text → Bool
fail_line [] = false
fail_line (c ∷ rest) =
    let further = fail_line rest in
    if c == 32 || c == 9
    then further
    else elim (starts_with (codes "FAIL") (c ∷ rest)) [ false ↦ false | true ↦ ended rest ]
  where
    ended : Text → Bool
    ended (a ∷ i ∷ l ∷ []) = true
    ended (a ∷ i ∷ l ∷ e ∷ tail) = ends_line e
    ended _ = false

-- `(^|[\r\n])[ \t]*FAIL([\r\n]|$)`; `start` says that a line starts here.
unfoldable pub reports_fail : Bool → Text → Bool
reports_fail start [] = false
reports_fail start (c ∷ rest) =
    let later = reports_fail (ends_line c) rest in start && fail_line (c ∷ rest) || later

-- `lowered.find(word) != npos`
unfoldable pub mentions : Text → Text → Bool
mentions word [] = is_empty word
mentions word (c ∷ rest) = let later = mentions word rest in starts_with word (c ∷ rest) || later

-- The JEDEC identifier; `detail` is the third regular expression, which reads a long report.
unfoldable pub parse_jedec : (Text → Option Text) → Text → Option Text
parse_jedec detail output =
    let lowered = map to_lower output in
    if mentions (codes "s25fl256s") lowered
    then some (codes "01 02 19")
    else if mentions (codes "mt25ql512") lowered || mentions (codes "n25q512") lowered
    then some (codes "20 ba 20")
    else elim (detail output) [ none ↦ none | some found ↦ some (map to_lower found) ]

-- From the last point of a file name that does not start it.
unfoldable pub from_point : Text → Text
from_point [] = []
from_point (c ∷ rest) =
    let later = from_point rest in
    if is_empty later then if c == 46 then c ∷ rest else [] else later

abbrev pub extension_of_name : Text → Text
extension_of_name [] = []
extension_of_name (c ∷ rest) = if c == 46 && is_empty rest then [] else from_point rest

-- `path.extension()`; the name `..` has none.
unfoldable pub extension : Text → Text
extension path = elim (last_component [] path) [
  | [] ↦ []
  | c ∷ rest ↦
      if c == 46 && starts_with (46 ∷ []) rest && starts_with rest (46 ∷ [])
      then []
      else extension_of_name (c ∷ rest)
]
