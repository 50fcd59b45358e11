-- ===== src/Common.antt =====
-- fpgactl/src/common.h and common.cpp: the host of the command line tool, and the waiting that its parts share.
-- The host is a parameter: functions of a state that stands for files, processes, devices, clock and output. A path
-- is its text.
pub mod Numbers
pub mod Files
pub mod Process
pub mod Sample
use mrs_fpga_toolkit.Base.{
  ℕ, zero, suc, ◌+◌, ◌*◌, Bool, true, not, leb, ◌==◌, ◌!=◌, List, ◌++◌, Text, codes, Option,
}
use mrs_fpga_toolkit.Machine.{M, ⊤, error, pure, throw_if, choose, hang, ◌>>=◌, ◌>>◌}
use mrs_fpga_toolkit.Xdma.{Answer, System, call}

-- How a child ended, as `waitpid` tells it.
pub data Ending : Type 0 where
  exited : ℕ → Ending
  signalled : ℕ → Ending
  stopped : Ending

pub record Host (S : Type 0) : Type 0 where
  pub exists : Text → S → Bool × S
  pub is_directory : Text → S → Bool × S
  -- the names in a directory, in its own order; none where it cannot be read
  pub entries : Text → S → List Text × S
  -- `std::filesystem::canonical`
  pub canonical : Text → S → Option Text × S
  -- the content of a file that opens
  pub read_all : Text → S → Option (List ℕ) × S
  -- whether the file opened for writing, and took the bytes
  pub write_all : Text → List ℕ → S → (record { opened : Bool; written : Bool }) × S
  pub is_regular_file : Text → S → Bool × S
  pub file_size : Text → S → ℕ × S
  pub absolute : Text → S → Text × S
  -- `mkdtemp` below the temporary directory, and `std::filesystem::remove_all`
  pub make_temporary : Text → S → Option Text × S
  -- `mkstemp` below the temporary directory: the descriptor, and the name of the file
  pub make_file : Text → S → (record { answer : Answer; name : Text }) × S
  pub unlink : Text → S → ⊤ × S
  pub remove_all : Text → S → ⊤ × S
  pub create_directories : Text → S → ⊤ × S
  pub chmod : Text → ℕ → S → Answer × S
  -- `access(path, X_OK) == 0`
  pub is_executable : Text → S → Bool × S
  pub search_path : S → Option Text × S
  pub geteuid : S → ℕ × S
  pub make_pipe : S → Answer × S
  -- `fork`, with the child replaced by a command whose output goes to the pipe
  pub spawn : List Text → S → Answer × S
  pub close_read_end : S → ⊤ × S
  pub close_write_end : S → ⊤ × S
  pub read_pipe : S → (record { answer : Answer; bytes : List ℕ }) × S
  pub wait_child : ℕ → S → (record { answer : Answer; ending : Ending }) × S
  pub print : Text → S → ⊤ × S
  pub print_error : Text → S → ⊤ × S
  -- `std::chrono::steady_clock::now` and `std::this_thread::sleep_for`, in nanoseconds
  pub now : S → ℕ × S
  pub sleep_for : ℕ → S → ⊤ × S
  pub system : System S

module _ {S : Type 0} (host : Host S) where
  abbrev pub say : Text → M S ⊤
  say text = call (host.print text)

  unfoldable pub require_root : M S ⊤
  require_root = do
    user ← call host.geteuid
    throw_if (user != 0) (error (codes "this operation must be run as root"))

  -- `waitUntil`: times in milliseconds. The loop has no bound in the source but its deadline: the model
  -- gives it `rounds`.
  unfoldable pub wait_loop : ℕ → M S Bool → ℕ → Text → ℕ → M S ⊤
  wait_loop zero predicate deadline description interval = hang
  wait_loop (suc rounds) predicate deadline description interval = do
    reached ← predicate
    choose reached (pure tt) (do
      now ← call host.now
      throw_if (leb deadline now) (error (codes "timeout waiting for " ++ description))
      call (host.sleep_for (interval * 1000000))
      wait_loop rounds predicate deadline description interval)

  unfoldable pub wait_until : ℕ → M S Bool → ℕ → Text → ℕ → M S ⊤
  wait_until rounds predicate timeout description interval = do
    now ← call host.now
    wait_loop rounds predicate (now + timeout * 1000000) description interval
