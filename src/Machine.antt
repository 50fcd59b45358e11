-- ===== src/Machine.antt =====
-- What all drivers stand on: C++ exceptions, and the virtual interface `RegisterAccess` of
-- dev/include/mrs_fpga_dev/xdma.h together with the clock and the sleep of the host.
-- A method is a function of the state of hardware and host; the state comes back beside an
-- exception too, since what was written to the hardware stays written.
pub mod Keeps
pub mod Steady
pub mod Recorded
pub mod Triple
pub mod Contract
pub mod Hands
pub mod Ends
pub mod RegisterFile
pub mod Returns
mod Monad
unfoldable pub use Monad.*
