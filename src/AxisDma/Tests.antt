-- ===== src/AxisDma/Tests.antt =====
-- A read over a stream that delivers what it is asked for.
use mrs_fpga_toolkit.Base.{
  ℕ, ◌+◌, ◌≡◌, ◌≢◌, refl, arith, List, length, replicate, length-replicate, true,
}
use mrs_fpga_toolkit.Base.Int.{pos}
use mrs_fpga_toolkit.Machine.{Bus, ok, hangs}
use mrs_fpga_toolkit.AxisDma.{XdmaStream}
use mrs_fpga_toolkit.AxisDma.Memory.{AxiMm2s, AxiMm2sStatistics, read}
use mrs_fpga_toolkit.AxisDma.Length.{IsPrompt, read_length}

-- The status is `complete` at once.
abbrev complete_bus : Bus ℕ
complete_bus = record {
  read_reg = λ a s. (ok 0x20000000, s);
  write_reg = λ a v s. (ok tt, s);
  now = λ s. (s + 1, s + 1);
  sleep_for = λ ns s. s + ns;
}

abbrev full_stream : XdmaStream ℕ
full_stream = record {
  has_h2c = true;
  has_c2h = true;
  write_h2c = λ bytes t s. (ok tt, s);
  read_c2h = λ n t s. (ok (record { count = pos n; bytes = replicate n 7 }), s);
}

abbrev reader : AxiMm2s ℕ
reader = record {
  lite = record { registers = complete_bus; base_address = 0x4000; register_span = 0x20 };
  stream = full_stream;
  transport_beat_bytes = 16;
}

reader-IsPrompt : IsPrompt reader (λ s. s)
reader-IsPrompt = record {
  steady = record {
    now_reads = λ s. refl;
    now_ticks = λ s. omega arith;
    sleep_steady = λ ns s. omega arith;
    read_steady = λ a s. omega arith;
    write_steady = λ a v s. omega arith;
  };
  read_ends = λ a s e. cc;
  write_ends = λ a v s e. cc;
  stream_ends = λ n t s e. cc;
  stream_steady = λ n t s. omega arith;
  stream_fills = λ n t s f e. ground (arith, length-replicate {A = ℕ} n 7, e);
}

read_length_example :
    let (r, s') = read reader 0x1000 100 (pos 5) 32 0 in
    (r ≢ hangs) × ((answer : List ℕ × AxiMm2sStatistics) → r ≡ ok answer → length answer.0 ≡ 100)
read_length_example =
    read_length reader (λ s. s) reader-IsPrompt 0x1000 100 32 (pos 5) 0 (omega arith)
