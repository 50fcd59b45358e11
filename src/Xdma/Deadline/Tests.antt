-- ===== src/Xdma/Deadline/Tests.antt =====
-- Checks of the deadline of fpgactl's transport on a thread that is its mask and its timers.
use mrs_fpga_toolkit.Base.{ℕ, ◌≡◌, ◌≢◌, refl, ap, arith, false, ◌⊎◌, length, List, [], ◌∷◌, some}
use mrs_fpga_toolkit.Base.Int.{pos}
use mrs_fpga_toolkit.Machine.{hangs, pure}
use mrs_fpga_toolkit.Machine.Ends.{Ends-pure}
use mrs_fpga_toolkit.Machine.Keeps.{Keeps-pure}
use mrs_fpga_toolkit.Machine.Contract.{Meets}
use mrs_fpga_toolkit.Xdma.{Answer, done, failed, System, call, eagain}
use mrs_fpga_toolkit.Xdma.Deadline.{Signals, sigusr2, with_deadline}
use mrs_fpga_toolkit.Xdma.Deadline.Kernel.{IsKernel}
use mrs_fpga_toolkit.Xdma.Deadline.Finish.{IsDraining, with_deadline_restores}
use mrs_fpga_toolkit.Xdma.Stream.{write_h2c}
use mrs_fpga_toolkit.Xdma.Stream.Wire.{Wire, wired, wired_signals, write_h2c_writes_once}

record Thread : Type 0 where
  mask : List ℕ
  timers : List ℕ

abbrev without_first : List ℕ → List ℕ
without_first [] = []
without_first (t ∷ ts) = ts

abbrev thread_signals : Signals Thread
thread_signals = record {
  block = λ s. (record { status = 0; previous = s.mask }, record s { mask = sigusr2 ∷ s.mask });
  set_mask = λ m s. (0, record s { mask = m });
  take_signal = λ s. (failed eagain, s);
  is_installed = λ s. (false, s);
  set_installed = λ s. (tt, s);
  install_handler = λ s. (done 0, s);
  timer_create = λ s. (done 7, record s { timers = 7 ∷ s.timers });
  timer_settime = λ n a b i s. (done 0, s);
  timer_delete = λ n s. (tt, record s { timers = without_first s.timers });
  fired = λ s. (false, s);
  clear_fired = λ s. (tt, s);
}

thread-Kernel : IsKernel thread_signals (λ s. s.mask) (λ s. s.timers)
unfolding call
thread-Kernel = record {
  reports = λ s e. refl;
  blocks = λ s e. refl;
  block_fails = λ s e. absurd (cc);
  block_timers = λ s. refl;
  sets = λ m s e. refl;
  set_fails = λ m s e. absurd (e refl);
  set_timers = λ m s. refl;
  creates = λ n s e. ap (λ (k : Answer). elim k [ done j ↦ j ∷ s.timers | failed j ↦ s.timers ]) e;
  create_fails = λ e s x. absurd (cc);
  create_mask = λ s. refl;
  deletes = λ n ts s e. ap without_first e;
  delete_mask = λ n s. refl;
  take_keeps = λ m ts. record { at = λ s h. h };
  asked_keeps = λ m ts. record { at = λ s h. h };
  noted_keeps = λ m ts. record { at = λ s h. h };
  handler_keeps = λ m ts. record { at = λ s h. h };
  settime_keeps = λ m ts n a b i. record { at = λ s h. h };
  clear_keeps = λ m ts. record { at = λ s h. h };
}

thread-Draining : IsDraining thread_signals (λ s. 0) 1
thread-Draining = record { bounded = λ s. omega arith; takes = λ s e. absurd (cc) }

abbrev idle_thread : Thread
idle_thread = record { mask = 15 ∷ []; timers = 3 ∷ [] }

with_deadline_restores_example :
    let (r, s') = with_deadline thread_signals 1 (pos 250) (pure tt) idle_thread in
    (r ≢ hangs)
    × (s'.timers ≡ 3 ∷ [])
    × ((s'.mask ≡ 15 ∷ [])
        ⊎ ((t : Thread) × ((thread_signals.set_mask (15 ∷ []) t).0 ≢ 0)
            × (s' ≡ (thread_signals.set_mask (15 ∷ []) t).1)))
with_deadline_restores_example =
    with_deadline_restores thread_signals (λ s. s.mask) (λ s. s.timers) (λ s. 0) 1 thread-Kernel
      thread-Draining (pos 250) (pure tt) idle_thread (Ends-pure tt) (λ ts. Keeps-pure tt)

abbrev packet : List ℕ
packet = 1 ∷ 2 ∷ 3 ∷ []

-- A device that takes packets whole.
abbrev thread_system : System Thread
thread_system = record {
  open_file = λ path flags s. (done 5, s);
  close_file = λ fd s. s;
  pread = λ fd at s. (record { answer = done 4; bytes = [] }, s);
  pwrite = λ fd bytes at s. (done (length bytes), s);
  read_file = λ fd size s. (record { answer = done 0; bytes = [] }, s);
  write_file = λ fd bytes s. (done (length bytes), s);
  poll_file = λ fd ms s. (record { answer = done 0; revents = 0 }, s);
  now = λ s. (0, s);
}

abbrev idle_wire : Wire Thread
idle_wire = record { inner = idle_thread; writes = [] }

write_h2c_writes_once_example :
    let (r, s') =
      write_h2c
        (wired thread_system)
        (wired_signals thread_signals)
        1
        (some 5)
        packet
        (pos 250)
        idle_wire in
    (r ≢ hangs)
    × Meets
        (λ n t. (t.writes ≡ (5, packet) ∷ []) × (n ≡ length packet))
        (λ t. (t.writes ≡ []) ⊎ (t.writes ≡ (5, packet) ∷ []))
        r
        s'
write_h2c_writes_once_example =
    write_h2c_writes_once thread_system thread_signals (λ s. 0) 1 thread-Draining 5 packet (pos 250)
      idle_wire
