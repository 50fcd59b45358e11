-- ===== src/CommandText/RoundTrip.antt =====
-- `displayCommand` and `splitCommandArguments` together.
use mrs_fpga_toolkit.Base.{
  Text, ℕ, true, false, ◌≡◌, refl, sym, ap, ◌∙◌, arith, List, [], ◌∷◌, ◌++◌, append_assoc,
  append-nil,
}
use mrs_fpga_toolkit.Machine.{ok}
use mrs_fpga_toolkit.CommandText.{
  quotation, blank, Splitting, unstarted, split_step, split_loop, split_finish,
  split_command_arguments, escaped_text, quoted, display_rest, display_command,
}

split_loop-append :
    (xs ys : Text) (s : Splitting) → split_loop (xs ++ ys) s ≡ split_loop ys (split_loop xs s)
unfolding split_loop
split_loop-append [] ys s = refl
split_loop-append (c ∷ xs) ys s = split_loop-append xs ys (split_step c s)

-- Inside quotation marks.
abbrev inside : List Text → Text → Splitting
inside result word = record {
  result = result;
  word = word;
  quote = quotation;
  escaped = false;
  started = true;
}

abbrev after_word : List Text → Text → Splitting
after_word result word = record {
  result = result;
  word = word;
  quote = 0;
  escaped = false;
  started = true;
}

one_character :
    (result : List Text) (word : Text) (c : ℕ) (rest : Text)
    → split_loop (escaped_text (c ∷ rest)) (inside result word)
      ≡ split_loop (escaped_text rest) (inside result (word ++ c ∷ []))
unfolding split_loop escaped_text split_step
one_character result word c rest = ground arith

escaped_text-inside :
    (result : List Text) (word item : Text)
    → split_loop (escaped_text item) (inside result word) ≡ inside result (word ++ item)
unfolding split_loop escaped_text
escaped_text-inside result word [] = ap (inside result) (sym (append-nil word))
escaped_text-inside result word (c ∷ rest) =
    one_character result word c rest
    ∙ escaped_text-inside result (word ++ c ∷ []) rest
    ∙ ap (inside result) (append_assoc word (c ∷ []) rest)

opened :
    (result : List Text) (rest : Text)
    → split_loop (quotation ∷ rest) (unstarted result) ≡ split_loop rest (inside result [])
unfolding split_loop split_step
opened result rest = refl

closed :
    (result : List Text) (word rest : Text)
    → split_loop (quotation ∷ rest) (inside result word) ≡ split_loop rest (after_word result word)
unfolding split_loop split_step
closed result word rest = refl

quoted_lem :
    (result : List Text) (item rest : Text)
    → split_loop (quoted item ++ rest) (unstarted result) ≡ split_loop rest (after_word result item)
quoted_lem result item rest =
    opened result ((escaped_text item ++ quotation ∷ []) ++ rest)
    ∙ ap (λ l. split_loop l (inside result []))
        (append_assoc (escaped_text item) (quotation ∷ []) rest)
    ∙ split_loop-append (escaped_text item) (quotation ∷ rest) (inside result [])
    ∙ ap (split_loop (quotation ∷ rest)) (escaped_text-inside result [] item)
    ∙ closed result item rest

spaced :
    (result : List Text) (word rest : Text)
    → split_loop (blank ∷ rest) (after_word result word)
      ≡ split_loop rest (unstarted (result ++ word ∷ []))
unfolding split_loop split_step
spaced result word rest = refl

display_rest_lem :
    (result : List Text) (item : Text) (items : List Text)
    → split_finish (split_loop (display_rest items) (after_word result item))
      ≡ ok (result ++ item ∷ items)
unfolding split_finish split_loop display_rest
display_rest_lem result item [] = refl
display_rest_lem result item (next ∷ items) =
    ap split_finish (spaced result item (quoted next ++ display_rest items))
    ∙ ap split_finish (quoted_lem (result ++ item ∷ []) next (display_rest items))
    ∙ display_rest_lem (result ++ item ∷ []) next items
    ∙ ap ok (append_assoc result (item ∷ []) (next ∷ items))

-- Every list of words, whatever bytes they hold and empty words included, is what the text that displays it splits into.
pub split_command_arguments-display_command :
    (command : List Text) → split_command_arguments (display_command command) ≡ ok command
unfolding split_command_arguments display_command split_loop split_finish
split_command_arguments-display_command [] = refl
split_command_arguments-display_command (item ∷ rest) =
    ap split_finish (quoted_lem [] item (display_rest rest)) ∙ display_rest_lem [] item rest
