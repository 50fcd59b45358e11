-- ===== src/Common/Process.antt =====
-- Child processes of fpgactl/src/common.cpp: `runProcess`, `runChecked`, `sha256File`.
-- The loops on `EINTR` and on the output of the child have no bound in the source: the model gives them `rounds`.
use mrs_fpga_toolkit.Base.{
  ℕ, zero, suc, ◌+◌, Bool, true, false, not, ltb, leb, all, take, length, ◌==◌, ◌&&◌, ◌||◌, List,
  [], ◌∷◌, ◌++◌, Text, codes, to_string, Option, none, some,
}
use mrs_fpga_toolkit.Base.Int.{ℤ, pos, negsuc}
use mrs_fpga_toolkit.Machine.{
  M, ⊤, error, system_error, pure, throw, throw_if, choose, given, when, hang, ◌>>=◌, ◌>>◌,
}
use mrs_fpga_toolkit.Xdma.{Answer, done, failed, call, eintr}
use mrs_fpga_toolkit.CommandText.{display_command}
use mrs_fpga_toolkit.Common.{Host, Ending, exited, signalled, stopped}

pub record ProcessResult : Type 0 where
  pub exit_code : ℤ
  pub output : Text

abbrev pub exit_code_of : Ending → ℤ
exit_code_of (exited n) = pos n
exit_code_of (signalled n) = pos (128 + n)
exit_code_of stopped = negsuc 0

abbrev pub is_zero : ℤ → Bool
is_zero (pos n) = n == 0
is_zero (negsuc n) = false

abbrev pub is_hex_digit : ℕ → Bool
is_hex_digit c = leb 48 c && leb c 57 || leb 65 c && leb c 70 || leb 97 c && leb c 102

abbrev pub exit_text : ℤ → Text
exit_text (pos n) = to_string n
exit_text (negsuc n) = codes "-" ++ to_string (suc n)

module _ {S : Type 0} (host : Host S) (rounds : ℕ) where
  -- One answer of `read`: the output so far, and whether to go on.
  abbrev pub received : Bool → Text → List ℕ → Answer → M S (Text × Bool)
  received echo output bytes (failed e) =
      choose (e == eintr) (pure (output, true))
        (do call host.close_read_end; throw (system_error (codes "cannot read child output: ") e))
  received echo output bytes (done n) =
      choose (n == 0) (pure (output, false))
        (do when echo (call (host.print bytes)); pure (output ++ bytes, true))

  unfoldable pub collect : ℕ → Bool → Text → M S Text
  collect zero echo output = hang
  collect (suc left) echo output = do
    got ← call host.read_pipe
    step ← received echo output got.bytes got.answer
    choose step.1 (collect left echo step.0) (pure step.0)

  abbrev pub waited : Ending → Answer → M S (Option Ending)
  waited ending (done n) = pure (some ending)
  waited ending (failed e) =
      choose (e == eintr) (pure none)
        (throw (system_error (codes "cannot wait for child process: ") e))

  unfoldable pub reap : ℕ → ℕ → M S Ending
  reap zero child = hang
  reap (suc left) child = do
    got ← call (host.wait_child child)
    step ← waited got.ending got.answer
    given step (reap left child) pure

  abbrev pub parent : Bool → Answer → M S ProcessResult
  parent echo (failed e) = do
    call host.close_read_end
    call host.close_write_end
    throw (system_error (codes "cannot create child process: ") e)
  parent echo (done child) = do
    call host.close_write_end
    output ← collect rounds echo []
    call host.close_read_end
    ending ← reap rounds child
    pure record { exit_code = exit_code_of ending; output = output }

  abbrev pub with_pipe : List Text → Bool → Answer → M S ProcessResult
  with_pipe command echo (failed e) =
      throw (system_error (codes "cannot create child output pipe: ") e)
  with_pipe command echo (done n) = do child ← call (host.spawn command); parent echo child

  unfoldable pub run_process : List Text → Bool → M S ProcessResult
  run_process [] echo = throw (error (codes "cannot execute an empty command"))
  run_process (word ∷ rest) echo = do made ← call host.make_pipe; with_pipe (word ∷ rest) echo made

  unfoldable pub run_checked : List Text → M S ⊤
  run_checked command = do
    result ← run_process command true
    throw_if (not (is_zero result.exit_code)) (
        error (
          codes "command exited with status "
          ++ exit_text result.exit_code
          ++ codes ": "
          ++ display_command command))

  unfoldable pub sha256_file : Text → M S Text
  sha256_file path = do
    result ← run_process (codes "sha256sum" ∷ codes "--" ∷ path ∷ []) false
    throw_if (not (is_zero result.exit_code) || ltb (length result.output) 64)
        (error (codes "cannot compute SHA-256 for " ++ path))
    throw_if (not (all is_hex_digit (take 64 result.output)))
        (error (codes "hash utility returned malformed output for " ++ path))
    pure (take 64 result.output)
