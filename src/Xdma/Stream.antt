-- ===== src/Xdma/Stream.antt =====
-- `XDMAStream` of dev/src/xdma.cpp: packets through the device files of the H2C and the C2H channel.
-- A buffer is the bytes that it holds: the null checks of the source compare pointers and have no counterpart.
-- A timeout is in milliseconds, the clock in nanoseconds.
pub mod Wire
use mrs_fpga_toolkit.Base.{
  String, ℕ, zero, suc, ◌+◌, ◌-◌, ◌*◌, ◌/◌, ◌^◌, bit_or, min, max, Bool, true, false, not, ltb, leb,
  ◌==◌, ◌!=◌, ◌&&◌, ◌||◌, if◌then◌else◌, List, [], ◌++◌, length, Text, codes, to_hex, to_string,
  Option, none, some,
}
use mrs_fpga_toolkit.Base.Bits.{any_bit}
use mrs_fpga_toolkit.Base.Int.{ℤ, pos, negsuc, pos_part, is_negative}
use mrs_fpga_toolkit.Machine.{
  M, ⊤, error, timeout_error, system_error, runtime_error, xdma_timeout, length_error,
  invalid_argument, pure, throw, throw_if, choose, given, hang, ◌>>=◌, ◌>>◌,
}
use mrs_fpga_toolkit.Xdma.{
  Answer, done, failed, System, call, eintr, eagain, open_user, open_c2h, truncate, poll_failure,
}
use mrs_fpga_toolkit.Xdma.Deadline.{Signals, with_deadline}

pub record Stream : Type 0 where
  pub fd_h2c : Option ℕ
  pub fd_c2h : Option ℕ
  pub h2c_path : Text
  pub c2h_path : Text
  pub c2h_eop_flush : Bool

abbrev pub has_h2c : Stream → Bool
has_h2c t = elim t.fd_h2c [ none ↦ false | some fd ↦ true ]

abbrev pub has_c2h : Stream → Bool
has_c2h t = elim t.fd_c2h [ none ↦ false | some fd ↦ true ]

-- `index < -1`
abbrev below_none : ℤ → Bool
below_none (pos n) = false
below_none (negsuc n) = n != 0

abbrev pub channel_path : ℤ → Text → ℤ → Text
channel_path device direction channel =
    codes "/dev/xdma" ++ to_string (pos_part device) ++ direction ++ to_string (pos_part channel)

abbrev pub ssize_max : ℕ
ssize_max = 2 ^ 63 - 1

-- `remainingMilliseconds`, at the time `now`.
abbrev pub remaining_milliseconds : ℕ → ℕ → ℕ
remaining_milliseconds deadline now =
    if leb deadline now then 0 else min (max ((deadline - now) / 1000000 + 1) 1) 0x7fffffff

module _ {S : Type 0} (sys : System S) where
  abbrev close_fd : Option ℕ → M S ⊤
  close_fd none = pure tt
  close_fd (some fd) = call (λ s. (tt, sys.close_file fd s))

  unfoldable pub close_streams : Stream → M S Stream
  close_streams t = do
    close_fd t.fd_h2c
    close_fd t.fd_c2h
    pure record t { fd_h2c = none; fd_c2h = none }

  abbrev opened_h2c : Text → Answer → M S (Option ℕ)
  opened_h2c path (done fd) = pure (some fd)
  opened_h2c path (failed e) = throw (system_error (codes "failed to open " ++ path) e)

  abbrev open_h2c_channel : Bool → Text → M S (Option ℕ)
  open_h2c_channel false path = pure none
  open_h2c_channel true path = do
    answer ← call (sys.open_file path open_user)
    opened_h2c path answer

  -- The C2H half has to give back the H2C descriptor when it fails.
  abbrev opened_c2h : Stream → Answer → M S Stream
  opened_c2h t (done fd) = pure record t { fd_c2h = some fd }
  opened_c2h t (failed e) = do
    closed ← close_streams t
    throw (system_error (codes "failed to open " ++ t.c2h_path) e)

  abbrev open_c2h_channel : Bool → Stream → M S Stream
  open_c2h_channel false t = pure t
  open_c2h_channel true t = do
    answer ←
        call (
          sys.open_file t.c2h_path (if t.c2h_eop_flush then bit_or open_c2h truncate else open_c2h))
    opened_c2h t answer

  unfoldable pub xdma_stream : ℤ → ℤ → ℤ → Bool → M S Stream
  xdma_stream device h2c c2h flush = do
    throw_if (is_negative device || below_none h2c || below_none c2h)
        (invalid_argument "XDMA device and channel indices must be nonnegative or -1")
    let h2c_path = if is_negative h2c then [] else channel_path device (codes "_h2c_") h2c
    let c2h_path = if is_negative c2h then [] else channel_path device (codes "_c2h_") c2h
    fd_h2c ← open_h2c_channel (not (is_negative h2c)) h2c_path
    open_c2h_channel (not (is_negative c2h)) record {
      fd_h2c = fd_h2c;
      fd_c2h = none;
      h2c_path = h2c_path;
      c2h_path = c2h_path;
      c2h_eop_flush = flush && not (is_negative c2h);
    }

-- Moving takes both descriptors out of their owner: the new object, and what is left of the old one.
unfoldable pub move : Stream → Stream × Stream
move other = (
  other,
  record { fd_h2c = none; fd_c2h = none; h2c_path = []; c2h_path = []; c2h_eop_flush = false },
)

-- `*this = std::move(other)` for two distinct objects.
unfoldable pub assign : {S : Type 0} → System S → Stream → Stream → M S (Stream × Stream)
assign sys this other = do closed ← close_streams sys this; pure (move other)

module _ {S : Type 0} (sys : System S) (sig : Signals S) where
  -- `if (deadline.fired()) throw XDMATimeout(message);`
  abbrev check_deadline : String → M S ⊤
  check_deadline message = do fired ← call sig.fired; throw_if fired (xdma_timeout message)

  -- `H2C write` after the call, on what it returned.
  unfoldable pub finish_write : ℕ → Answer → M S ℕ
  finish_write size (failed e) =
      choose (e == eintr)
        (do
          check_deadline
              "timed out writing H2C; the interrupted packet may be partial and must not be retried"
          throw (
              runtime_error
                "H2C write was interrupted; packet completion is unknown and retry is unsafe"))
        (throw (system_error (codes "H2C write failed") e))
  finish_write size (done written) = do
    check_deadline "H2C write reached its deadline while returning; packet completion is unknown"
    throw_if (written != size) (
        error (
          codes "H2C short write: requested "
          ++ to_string size
          ++ codes ", wrote "
          ++ to_string written
          ++ codes "; splitting would change the packet boundary"))
    pure written

  abbrev submit : ℕ → List ℕ → M S ℕ
  submit fd bytes = do
    check_deadline "timed out before submitting the H2C stream write"
    answer ← call (sys.write_file fd bytes)
    finish_write (length bytes) answer

  unfoldable pub write_h2c : ℕ → Option ℕ → List ℕ → ℤ → M S ℕ
  write_h2c rounds none bytes timeout_ms = throw (runtime_error "H2C stream is not open")
  write_h2c rounds (some fd) bytes timeout_ms = do
    throw_if (ltb ssize_max (length bytes))
        (length_error "H2C transfer exceeds the operating-system byte-count range")
    with_deadline sig rounds timeout_ms (submit fd bytes)

  -- One turn of the loop of `readC2H`: what was read, or `none` to go around again.
  abbrev polled : ℕ → Answer → M S (Option (List ℕ))
  polled revents (failed e) = do
    fired ← call sig.fired
    throw_if (e == eintr && fired) (xdma_timeout "timed out polling the C2H stream")
    throw (system_error (codes "C2H poll failed") e)
  polled revents (done ready) = do
    check_deadline "timed out polling the C2H stream"
    choose (ready == 0) (pure (some [])) (do
      throw_if (any_bit revents poll_failure)
          (error (codes "C2H poll reported device error flags 0x" ++ to_hex revents))
      pure none)

  abbrev read_failed : ℕ → ℤ → ℕ → M S (Option (List ℕ))
  read_failed fd timeout_ms e =
      choose (e == eintr)
        (do
          check_deadline "timed out reading the C2H stream"
          throw (runtime_error "C2H read was interrupted before its deadline"))
        (choose (e != eagain) (throw (system_error (codes "C2H read failed") e))
          (do poll ← call (sys.poll_file fd timeout_ms); polled poll.revents poll.answer))

  abbrev answered : ℕ → ℤ → Answer → List ℕ → M S (Option (List ℕ))
  answered fd timeout_ms (failed e) bytes = read_failed fd timeout_ms e
  answered fd timeout_ms (done n) bytes = do
    check_deadline "C2H read reached its deadline while returning"
    pure (some bytes)

  unfoldable pub read_turn : ℕ → ℕ → ℤ → M S (Option (List ℕ))
  read_turn fd size timeout_ms = do
    check_deadline "timed out before submitting the C2H stream read"
    got ← call (sys.read_file fd size)
    answered fd timeout_ms got.answer got.bytes

  unfoldable pub read_loop : ℕ → ℕ → ℕ → ℤ → M S (List ℕ)
  read_loop zero fd size timeout_ms = hang
  read_loop (suc rounds) fd size timeout_ms = do
    turn ← read_turn fd size timeout_ms
    given turn (read_loop rounds fd size timeout_ms) pure

  -- The bytes that the call put into the buffer.
  unfoldable pub read_c2h : ℕ → Option ℕ → ℕ → ℤ → M S (List ℕ)
  read_c2h rounds none size timeout_ms = throw (runtime_error "C2H stream is not open")
  read_c2h rounds (some fd) size timeout_ms = do
    throw_if (ltb ssize_max size)
        (length_error "C2H transfer exceeds the operating-system byte-count range")
    with_deadline sig rounds timeout_ms (read_loop rounds fd size timeout_ms)

  -- The loop of `readExact`, with the bytes that have been read. An outer round is one call of `readC2H`.
  unfoldable pub exact_loop : ℕ → ℕ → Option ℕ → ℕ → ℕ → List ℕ → M S (List ℕ)
  exact_loop zero rounds fd size deadline completed = hang
  exact_loop (suc calls) rounds fd size deadline completed =
      choose (leb size (length completed)) (pure completed) (do
        now ← call sys.now
        throw_if (remaining_milliseconds deadline now == 0) (
            timeout_error (
              codes "timed out after reading "
              ++ to_string (length completed)
              ++ codes " of "
              ++ to_string size
              ++ codes " C2H bytes"))
        bytes ←
            read_c2h rounds fd (size - length completed) (pos (remaining_milliseconds deadline now))
        exact_loop calls rounds fd size deadline (completed ++ bytes))

  unfoldable pub read_exact : ℕ → ℕ → Option ℕ → ℕ → ℤ → M S (List ℕ)
  read_exact calls rounds fd size timeout_ms = do
    throw_if (is_negative timeout_ms)
        (invalid_argument "readExact requires a finite nonnegative timeout")
    now ← call sys.now
    exact_loop calls rounds fd size (now + pos_part timeout_ms * 1000000) []
