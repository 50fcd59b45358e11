-- ===== src/CommandText/Tests.antt =====
-- Texts of commands and lists at concrete inputs.
use mrs_fpga_toolkit.Base.{Text, List, [], ◌∷◌, ◌≡◌, refl}
use mrs_fpga_toolkit.Machine.{ok}
use mrs_fpga_toolkit.CommandText.{split_list, split_items, split_command_arguments, display_command}
use mrs_fpga_toolkit.CommandText.RoundTrip.{split_command_arguments-display_command}

-- `a, b`
split_two : split_list (97 ∷ 44 ∷ 32 ∷ 98 ∷ []) ≡ (97 ∷ []) ∷ (98 ∷ []) ∷ []
unfolding split_list split_items
split_two = refl

abbrev awkward : List Text
awkward = (97 ∷ 32 ∷ 34 ∷ []) ∷ [] ∷ (92 ∷ 39 ∷ []) ∷ []

split_command_arguments-display_command_example :
    split_command_arguments (display_command awkward) ≡ ok awkward
split_command_arguments-display_command_example = split_command_arguments-display_command awkward
