-- ===== src/AxiHwIcap/Tests.antt =====
-- The configuration port at a concrete input.
use mrs_fpga_toolkit.Base.{◌≡◌, ◌⊎◌, []}
use mrs_fpga_toolkit.Machine.{ok}
use mrs_fpga_toolkit.Machine.RegisterFile.{Storage, storage_bus}
use mrs_fpga_toolkit.Machine.Recorded.{Recorded}
use mrs_fpga_toolkit.AxiHwIcap.{trigger_iprog}
use mrs_fpga_toolkit.AxiHwIcap.Atomic.{launches, icap, Launched, trigger_iprog_atomic}

abbrev fresh : Recorded Storage
fresh = record { inner = record { cells = λ a. 5; ticks = 0 }; log = [] }

trigger_iprog_atomic_example :
    let (r, s') = trigger_iprog (icap storage_bus 0x2000 1 5) 0x400 fresh in
    ((launches 0x210c s'.log ≡ 0) ⊎ Launched storage_bus 0x2000 1 5 0x400 fresh s')
    × (r ≡ ok tt → Launched storage_bus 0x2000 1 5 0x400 fresh s')
unfolding launches
trigger_iprog_atomic_example = trigger_iprog_atomic storage_bus 0x2000 1 5 0x400 fresh
