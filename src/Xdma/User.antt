-- ===== src/Xdma/User.antt =====
-- `XDMAUser` of dev/src/xdma.cpp: registers through the user BAR's device file.
-- A descriptor is `none` where the source has -1. The value of a register is its four bytes, the least
-- significant first, as on the hosts of the driver. The loops on `EINTR` have no bound in the source: the model
-- gives them `rounds`.
use mrs_fpga_toolkit.Base.{
  ℕ, zero, suc, ◌+◌, ◌-◌, ◌*◌, ◌/◌, ◌%◌, Bool, true, false, ltb, ◌==◌, ◌!=◌, List, [], ◌∷◌, ◌++◌,
  Text, codes, to_hex, to_string, Option, none, some,
}
use mrs_fpga_toolkit.Base.Bits.{any_bit}
use mrs_fpga_toolkit.Base.Int.{ℤ, pos_part, is_negative}
use mrs_fpga_toolkit.Machine.{
  M, ⊤, ok, error, bad_argument, system_error, invalid_argument, out_of_range, pure, throw,
  throw_if, choose, hang, ◌>>=◌, ◌>>◌,
}
use mrs_fpga_toolkit.Xdma.{Answer, done, failed, System, call, eintr, open_user}

pub record XdmaUser : Type 0 where
  pub fd : Option ℕ
  pub path : Text

-- What a call with a descriptor gets: -1 stands as the largest value of the kernel's type.
abbrev pub descriptor : Option ℕ → ℕ
descriptor none = 0xffffffff
descriptor (some fd) = fd

abbrev pub is_open : XdmaUser → Bool
is_open u = elim u.fd [ none ↦ false | some fd ↦ true ]

unfoldable pub little_bytes : ℕ → ℕ → List ℕ
little_bytes zero value = []
little_bytes (suc n) value = value % 256 ∷ little_bytes n (value / 256)

unfoldable pub little_value : List ℕ → ℕ
little_value [] = 0
little_value (b ∷ bytes) = b + 256 * little_value bytes

unfoldable pub indexed_user_path : {S : Type 0} → ℤ → M S Text
indexed_user_path device_index = do
  throw_if (is_negative device_index) (invalid_argument "XDMA device index must be nonnegative")
  pure (codes "/dev/xdma" ++ to_string (pos_part device_index) ++ codes "_user")

module _ {S : Type 0} (sys : System S) where
  abbrev pub opened : Text → Answer → M S XdmaUser
  opened path (done fd) = pure record { fd = some fd; path = path }
  opened path (failed e) = throw (system_error (codes "failed to open " ++ path) e)

  unfoldable pub xdma_user : Text → M S XdmaUser
  xdma_user [] = throw (invalid_argument "XDMA user device path must not be empty")
  xdma_user (c ∷ path) = do
    answer ← call (sys.open_file (c ∷ path) open_user)
    opened (c ∷ path) answer

  unfoldable pub close : XdmaUser → M S XdmaUser
  close u = close_fd u.fd
    where
      close_fd : Option ℕ → M S XdmaUser
      close_fd none = pure u
      close_fd (some fd) = λ s. (ok (record u { fd = none }), sys.close_file fd s)

  -- The end of `readReg`, after its loop.
  abbrev pub finish_read : ℕ → Answer → List ℕ → M S ℕ
  finish_read address (failed e) bytes =
      throw (system_error (codes "failed to read XDMA register 0x" ++ to_hex address) e)
  finish_read address (done n) bytes =
      choose (n != 4)
        (throw (
          error (
            codes "short XDMA register read at 0x"
            ++ to_hex address
            ++ codes ": expected 4 bytes, got "
            ++ to_string n)))
        (pure (little_value bytes))

  abbrev interrupted : Answer → Bool
  interrupted (done n) = false
  interrupted (failed e) = e == eintr

  unfoldable pub read_loop : ℕ → XdmaUser → ℕ → M S ℕ
  read_loop zero u address = hang
  read_loop (suc rounds) u address = do
    got ← call (sys.pread (descriptor u.fd) address)
    choose (interrupted got.answer) (read_loop rounds u address)
        (finish_read address got.answer got.bytes)

  unfoldable pub read_reg : ℕ → XdmaUser → ℕ → M S ℕ
  read_reg rounds u address = do
    throw_if (any_bit address 0x3)
        (bad_argument (codes "unaligned XDMA register read at 0x" ++ to_hex address))
    read_loop rounds u address

  abbrev finish_write : ℕ → Answer → M S ⊤
  finish_write address (failed e) =
      throw (system_error (codes "failed to write XDMA register 0x" ++ to_hex address) e)
  finish_write address (done n) = throw_if (n != 4) (
      error (
        codes "short XDMA register write at 0x"
        ++ to_hex address
        ++ codes ": expected 4 bytes, got "
        ++ to_string n))

  unfoldable pub write_loop : ℕ → XdmaUser → ℕ → ℕ → M S ⊤
  write_loop zero u address value = hang
  write_loop (suc rounds) u address value = do
    answer ← call (sys.pwrite (descriptor u.fd) (little_bytes 4 value) address)
    choose (interrupted answer) (write_loop rounds u address value) (finish_write address answer)

  unfoldable pub write_reg : ℕ → XdmaUser → ℕ → ℕ → M S ⊤
  write_reg rounds u address value = do
    throw_if (any_bit address 0x3)
        (bad_argument (codes "unaligned XDMA register write at 0x" ++ to_hex address))
    write_loop rounds u address value

  unfoldable pub read_block_reg : ℕ → XdmaUser → ℕ → ℕ → M S ℕ
  read_block_reg rounds u base offset = do
    throw_if (ltb (0xffffffff - offset) base)
        (out_of_range "XDMA block-relative read address overflows 32 bits")
    read_reg rounds u (base + offset)

  unfoldable pub write_block_reg : ℕ → XdmaUser → ℕ → ℕ → ℕ → M S ⊤
  write_block_reg rounds u base offset value = do
    throw_if (ltb (0xffffffff - offset) base)
        (out_of_range "XDMA block-relative write address overflows 32 bits")
    write_reg rounds u (base + offset) value

-- Moving takes the descriptor out of its owner: the new object, and what is left of the old one.
unfoldable pub move : XdmaUser → XdmaUser × XdmaUser
move other = (other, record { fd = none; path = [] })

-- `*this = std::move(other)` for two distinct objects.
unfoldable pub assign : {S : Type 0} → System S → XdmaUser → XdmaUser → M S (XdmaUser × XdmaUser)
assign sys this other = do closed ← close sys this; pure (move other)
