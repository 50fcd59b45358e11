-- ===== src/Cli/Tests.antt =====
-- Options of fpgactl/src/cli.cpp on concrete words.
use mrs_fpga_toolkit.Base.{◌≡◌, refl, arith, [], ◌∷◌, codes, none, some}
use mrs_fpga_toolkit.Machine.{ok, throws, error}
use mrs_fpga_toolkit.Common.Numbers.{scan, skip_blanks, unsigned_part, signed_part, parse_unsigned}
use mrs_fpga_toolkit.Cli.{octal_part, parse_optional_id, parse_device_mode}
use mrs_fpga_toolkit.Cli.Mode.{parse_device_mode_octal}

-- "640"
parse_device_mode_octal_example : parse_device_mode (54 ∷ 52 ∷ 48 ∷ []) ≡ ok (some 416)
parse_device_mode_octal_example =
    parse_device_mode_octal 6 4 0 (omega arith) (omega arith) (omega arith)

mode_too_large :
    parse_device_mode (codes "1000")
    ≡ throws (error (codes "device mode must be between 000 and 777"))
unfolding parse_device_mode octal_part skip_blanks scan
mode_too_large = refl

mode_with_tail :
    parse_device_mode (codes "64x")
    ≡ throws (error (codes "device mode must be between 000 and 777"))
unfolding parse_device_mode octal_part skip_blanks scan
mode_with_tail = refl

mode_is_kept : parse_device_mode (codes "preserve") ≡ ok none
unfolding parse_device_mode
mode_is_kept = refl

id_is_read : parse_optional_id (some (codes "0x10ee")) (codes "vendor ID") ≡ ok (some 0x10ee)
unfolding parse_optional_id parse_unsigned skip_blanks scan unsigned_part signed_part
id_is_read = refl

id_is_dropped : parse_optional_id (some (codes "none")) (codes "vendor ID") ≡ ok none
unfolding parse_optional_id
id_is_dropped = refl
