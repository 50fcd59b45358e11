-- ===== src/Xdma.antt =====
-- The host's side of dev/src/xdma.cpp: the system calls that the XDMA transport is built on.
-- They belong to the operating system, so they are a parameter: functions of a state, which stands for the kernel, the
-- device and the thread. Numbers of `errno` and flags are those of Linux.
pub mod User
pub mod Deadline
pub mod Stream
use mrs_fpga_toolkit.Base.{ℕ, bit_or, List, Text}
use mrs_fpga_toolkit.Base.Int.{ℤ}
use mrs_fpga_toolkit.Machine.{M, ok}

-- What a call returns: a count or a descriptor, or -1 with `errno`.
pub data Answer : Type 0 where
  done : ℕ → Answer
  failed : ℕ → Answer

abbrev pub eintr : ℕ
eintr = 4

abbrev pub eagain : ℕ
eagain = 11

-- `O_RDWR | O_CLOEXEC`, and `O_RDONLY | O_NONBLOCK | O_CLOEXEC` with or without `O_TRUNC`.
abbrev pub open_user : ℕ
open_user = bit_or 0x2 0x80000

abbrev pub open_c2h : ℕ
open_c2h = bit_or 0x800 0x80000

abbrev pub truncate : ℕ
truncate = 0x200

-- `POLLERR | POLLHUP | POLLNVAL`
abbrev pub poll_failure : ℕ
poll_failure = bit_or (bit_or 0x8 0x10) 0x20

pub record System (S : Type 0) : Type 0 where
  pub open_file : Text → ℕ → S → Answer × S
  pub close_file : ℕ → S → S
  pub pread : ℕ → ℕ → S → (record { answer : Answer; bytes : List ℕ }) × S
  pub pwrite : ℕ → List ℕ → ℕ → S → Answer × S
  pub read_file : ℕ → ℕ → S → (record { answer : Answer; bytes : List ℕ }) × S
  pub write_file : ℕ → List ℕ → S → Answer × S
  pub poll_file : ℕ → ℤ → S → (record { answer : Answer; revents : ℕ }) × S
  pub now : S → ℕ × S

-- A call as a step of a method.
unfoldable pub call : {S A : Type 0} → (S → A × S) → M S A
call f s = let (a, s') = f s in (ok a, s')
