-- ===== src/QspiTool/Tests.antt =====
-- Checks of the QSPI commands on a small host.
use mrs_fpga_toolkit.Base.{ℕ, ◌≡◌, ◌≢◌, refl, ap, ◌∙◌, List, [], ◌∷◌, codes, digits, length}
use mrs_fpga_toolkit.Machine.{M, Bus, Outcome, ok, hangs, lift, ◌>>=◌}
use mrs_fpga_toolkit.Machine.Keeps.{Keeps}
use mrs_fpga_toolkit.Machine.Ends.{Ends}
use mrs_fpga_toolkit.Xdma.{Answer, done, failed, System, call}
use mrs_fpga_toolkit.Xdma.User.{XdmaUser, read_reg, read_loop, little_value}
use mrs_fpga_toolkit.IpDriverLite.{ip_driver_lite, read32, read64_at, validate_offset}
use mrs_fpga_toolkit.DeviceDna.{device_dna, value}
use mrs_fpga_toolkit.Common.{Host}
use mrs_fpga_toolkit.Common.Sample.{host_on}
use mrs_fpga_toolkit.QspiTool.{user_bus, with_user}
use mrs_fpga_toolkit.QspiTool.Report.{format_jedec}
use mrs_fpga_toolkit.QspiTool.Closes.{IsOpening, with_user_closes}

jedec_is_printed : format_jedec (0x01 ∷ 0x02 ∷ 0x19 ∷ []) ≡ codes "01 02 19"
unfolding format_jedec digits
jedec_is_printed = refl

abbrev without_first : List ℕ → List ℕ
without_first [] = []
without_first (fd ∷ fds) = fds

-- The state is the open descriptors.
abbrev table_system : System (List ℕ)
table_system = record {
  open_file = λ path flags s. (done (length s), length s ∷ s);
  close_file = λ fd s. without_first s;
  pread = λ fd at s. (record { answer = done 4; bytes = [] }, s);
  pwrite = λ fd bytes at s. (done (length bytes), s);
  read_file = λ fd size s. (record { answer = done 0; bytes = [] }, s);
  write_file = λ fd bytes s. (done (length bytes), s);
  poll_file = λ fd ms s. (record { answer = done 0; revents = 0 }, s);
  now = λ s. (0, s);
}

abbrev table_host : Host (List ℕ)
table_host = host_on table_system (λ s. 0) (λ ns s. s)

table-Opening : IsOpening table_system (λ s. s)
table-Opening = record {
  opens = λ path flags n s e. ap (λ (a : Answer). elim a [ done k ↦ k ∷ s | failed k ↦ s ]) e;
  fails = λ path flags e s x. absurd (cc);
  closes = λ n ts s e. ap without_first e;
}

-- The identifier of the device, through the driver and two reads of the device file.
abbrev read_dna : Bus (List ℕ) → M (List ℕ) ℕ
read_dna registers = do d ← lift (device_dna registers 0x1000); value d

read_dna_runs : (u : XdmaUser) (s : List ℕ) → read_dna (user_bus table_host 3 u) s ≡ (ok 0, s)
unfolding device_dna ip_driver_lite value read64_at read32 validate_offset read_reg read_loop
    little_value call ◌>>=◌
read_dna_runs u s = refl

read_dna-Ends : (u : XdmaUser) → Ends (read_dna (user_bus table_host 3 u))
read_dna-Ends u = record {
  at = λ s. let runs = ap (λ (p : Outcome ℕ × List ℕ). p.0) (read_dna_runs u s) in λ e. absurd (cc);
}

read_dna-Keeps :
    (u : XdmaUser) (us : List ℕ) → Keeps (λ t. t ≡ us) (read_dna (user_bus table_host 3 u))
read_dna-Keeps u us = record {
  at = λ s h. ap (λ (p : Outcome ℕ × List ℕ). p.1) (read_dna_runs u s) ∙ h;
}

with_user_closes_example :
    let (r, s') = with_user table_host 3 (codes "/dev/xdma0_user") read_dna (4 ∷ []) in
    (r ≢ hangs) × (s' ≡ 4 ∷ [])
with_user_closes_example =
    with_user_closes table_host (λ s. s) 3 (codes "/dev/xdma0_user") read_dna (4 ∷ []) table-Opening
      read_dna-Ends read_dna-Keeps
