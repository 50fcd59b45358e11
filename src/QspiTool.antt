-- ===== src/QspiTool.antt =====
-- The QSPI commands of fpgactl/src/qspi.cpp: their options, and the flash behind the devices that they open.
pub mod Report
pub mod Reload
pub mod Run
pub mod Closes
mod Tests
use mrs_fpga_toolkit.Base.{ℕ, ◌+◌, Bool, ◌++◌, Text, codes, to_string, List, [], Option, none, some}
use mrs_fpga_toolkit.Base.Int.{ℤ}
use mrs_fpga_toolkit.Machine.{M, ⊤, Outcome, Bus, pure, on_throw, ◌>>=◌, ◌>>◌}
use mrs_fpga_toolkit.Xdma.User.{XdmaUser, xdma_user, close, read_reg, write_reg}
use mrs_fpga_toolkit.AxiQuadSpi
use mrs_fpga_toolkit.AxiQuadSpi.{AxiQuadSpi, axi_quad_spi}
use mrs_fpga_toolkit.SpiNor.{Spi, Nor, SpiNor}
use mrs_fpga_toolkit.SpiNor.Recovery.{spi_nor}
use mrs_fpga_toolkit.Common.{Host}
use mrs_fpga_toolkit.Pcie.{PcieOptions}

pub data QspiAction : Type 0 where
  show : QspiAction
  read : QspiAction
  verify : QspiAction
  program : QspiAction
  repair : QspiAction
  reload : QspiAction

-- Timeouts are in milliseconds.
pub record QspiCommand : Type 0 where
  pub action : QspiAction
  pub operand : Option Text
  pub device : Option Text
  pub qspi_base : ℕ
  pub spi_timeout : ℤ
  pub hwicap_base : ℕ
  pub hwicap_timeout : ℤ
  pub hwicap_vacancy : ℕ
  pub offset : ℕ
  pub length : Option ℕ
  pub boot_address : Option ℕ
  pub expected_part : Option Text
  pub confirmed : Bool
  pub rewrite_all : Bool
  pub force : Bool
  pub json : Bool
  pub reload_after : Bool
  pub pcie : PcieOptions

-- `options.device.value_or(...)`
abbrev pub device_of : QspiCommand → Text
device_of o = elim o.device [
  | none ↦ codes "/dev/xdma" ++ to_string o.pcie.device_index ++ codes "_user"
  | some device ↦ device
]

-- A block with an object whose destructor is `cleanup`.
abbrev pub scoped : {S A : Type 0} → M S ⊤ → M S A → M S A
scoped cleanup body = do result ← on_throw body cleanup; cleanup; pure result

module _ {S : Type 0} (host : Host S) (rounds : ℕ) where
  -- `XDMAUser` as `RegisterAccess`, with the clock of the host.
  abbrev pub user_bus : XdmaUser → Bus S
  user_bus u = record {
    read_reg = read_reg host.system rounds u;
    write_reg = write_reg host.system rounds u;
    now = host.now;
    sleep_for = λ ns s. (host.sleep_for ns s).1;
  }

  unfoldable pub with_user : {A : Type 0} → Text → (Bus S → M S A) → M S A
  with_user device body = do
    registers ← xdma_user host.system device
    scoped (do closed ← close host.system registers; pure tt) (body (user_bus registers))

  -- `AxiQuadSpi` as the link of `SpiNor`.
  abbrev pub quad_spi_link : AxiQuadSpi S → Spi S
  quad_spi_link q = record {
    transfer = AxiQuadSpi.transfer q;
    now = host.now;
    sleep_for = λ ns s. (host.sleep_for ns s).1;
  }

  -- A flash object lives no longer than its controller, so what it keeps is dropped at the end.
  abbrev in_flash : {A : Type 0} → M (Nor S) A → M S A
  in_flash m s = let (r, n) = m record { device = s; jedec_id = [] } in (r, n.device)

  unfoldable pub with_flash : {A : Type 0} → QspiCommand → (SpiNor S → M (Nor S) A) → M S A
  with_flash options body = with_user (device_of options) (λ registers. do
    controller ← axi_quad_spi registers options.qspi_base options.spi_timeout
    scoped (AxiQuadSpi.destroy controller)
        (in_flash (do flash ← spi_nor (quad_spi_link controller); body flash)))

-- What the host does while a flash object is there.
abbrev pub outside : {S A : Type 0} → M S A → M (Nor S) A
outside m n = let (r, s') = m n.device in (r, record n { device = s' })
