-- ===== src/Lib.antt =====
-- Verification library of the MRS FPGA toolkit: the transport and the FPGA IP drivers of dev/, and parts
-- of the command-line tool in fpgactl/.
--
-- The program. `IpDriverLite` (dev/src/ip_driver_lite.cpp) gives every driver checked register access
-- over a transport, `RegisterAccess` (dev/include/mrs_fpga_dev/xdma.h). The drivers of
-- dev/src/ip_drivers stand on it: GPIO, HWICAP, Quad SPI, streaming DMA, Device DNA, XADC. `SpiNor`
-- drives a flash through the Quad SPI controller, and `programAndVerify` (fpgactl/src/qspi.cpp) writes
-- an image through it. `XDMAUser` and `XDMAStream` (dev/src/xdma.cpp) are the transport on a host, and
-- `runXdma` (fpgactl/src/pcie.cpp) loads its driver and finds, removes and recovers its endpoint.
--
-- The model. A method is a function of the state of hardware and host, with the outcome `ok`, `throws`
-- or `hangs`, and with the state beside every outcome, since what was written stays written
-- (Machine, Machine/Monad). The transport, the clock and the sleep are a record of functions over an
-- arbitrary state, so a theorem holds for every behaviour of the hardware that its hypotheses allow.
--   Machine          methods, invariants (Keeps), triples (Triple, Returns), recorded accesses
--                    (Recorded), plain storage (RegisterFile), a steady clock (Steady)
--   IpDriverLite     dev/src/ip_driver_lite.cpp: read32, write32, read64, read64_stable, write64,
--                    update32, wait_masked, validate_offset
--   AxiGpio          dev/src/ip_drivers/gpio.cpp
--   AxiHwIcap        dev/src/ip_drivers/hwicap.cpp
--   AxiQuadSpi       dev/src/ip_drivers/qspi.cpp, class AxiQuadSpi
--   SpiNor           dev/src/ip_drivers/qspi.cpp, class SpiNor: Blocks has read, erase_sector and
--                    program, Recovery the constructor and the repair of Micron's NVCR
--   Xdma             dev/src/xdma.cpp: User is XDMAUser, Stream is XDMAStream, Deadline is
--                    DriverDeadlineInterrupt
--   AxisDma          dev/src/ip_drivers/axis_dma_common.cpp; Host is axis2mm.cpp, Memory aximm2s.cpp
--   DeviceDna        dev/src/ip_drivers/device_dna.cpp and the samples of xadc.cpp
--   QspiProgram      fpgactl/src/qspi.cpp: requireWritable and programAndVerify
--   BitImage         fpgactl/src/qspi.cpp: loadImage; fpgactl/src/jtag.cpp: validateBitImage
--   CommandText      fpgactl/src/common.cpp: splitList, splitCommandArguments, displayCommand
--   Common           fpgactl/src/common.h and common.cpp: the host (a record of functions), waitUntil;
--                    Numbers is parseUnsigned, Files and Process the rest
--   PcieConfig       fpgactl/src/pcie.cpp: decodePcieControl
--   Pcie             the rest of fpgactl/src/pcie.cpp: Inspect reads an endpoint, Report prints it, Find
--                    selects it, Lifecycle loads, removes and recovers, Mrrs is setMrrs, Run is runXdma;
--                    Quiet and its children hold what the commands do to the host
--   Jtag             fpgactl/src/jtag.cpp: Loader has the runs that detect, Run is runJtag
--   QspiTool         fpgactl/src/qspi.cpp: the command QspiCommand, Report prints, Reload is
--                    reloadFromFlash, Run is runQspi; it puts XDMAUser, AxiQuadSpi and SpiNor together
--   BoardText        fpgactl/src/board.cpp: decodeProductId, jsonEscape
--   Board            the rest of fpgactl/src/board.cpp, BoardAccess and runBoard, with the reads of
--                    dev/src/ip_drivers/xadc.cpp; Drivers and Reads hold what they do to the host
--   Cli              fpgactl/src/cli.cpp: from the options of a command to its record
--
-- Numbers are natural numbers; a 32-bit or 64-bit value is reduced where the source converts or adds.
-- Bytes and characters are numbers below 256. Times are nanoseconds.
--
-- Loops. A loop over a list or a count is structural. A loop until a deadline has a round for each
-- nanosecond up to it: every round reads the clock, and a clock that ticks at each reading passes the
-- deadline within them. A loop that handles at least one byte each round has a round for each byte and
-- one more. The capability walk has a round for each of the 64 possible pointers and two more. A loop
-- out of rounds has the outcome `hangs`.
--
-- The loops of dev/src/xdma.cpp, fpgactl/src/common.cpp and fpgactl/src/pcie.cpp that only the host
-- ends have `rounds` as a parameter.
--
-- Hypotheses. Plain storage (IsRegisterFile), a status register that toggles on write
-- (TogglesOnWrite), a transport that does not throw (IsReliable), a steady clock (IsSteady), hardware
-- that answers a DMA read (IsPrompt), a kernel whose mask and timers obey the manual (IsKernel), a
-- signal that can be drained (IsDraining), descriptors that open and close as documented (IsOpening) and a
-- flash that obeys its data sheet (NorFlash) are records of laws, each with a concrete instance. In
-- IsKernel a mask or timer call that reports a failure changes nothing.
--
-- Not modelled: what the operating system does behind its calls, floating-point conversions, the
-- regular expressions for the temperature and for a long flash report in fpgactl/src/jtag.cpp, measured
-- times, and of the command line the third-party parser, the declarations of the options and the dispatch.
pub mod AxiGpio
pub mod AxiHwIcap
pub mod AxiQuadSpi
pub mod AxisDma
pub mod Base
pub mod BitImage
pub mod Board
pub mod BoardText
pub mod Cli
pub mod CommandText
pub mod Common
pub mod DeviceDna
pub mod IpDriverLite
pub mod Jtag
pub mod Machine
pub mod Pcie
pub mod PcieConfig
pub mod QspiProgram
pub mod QspiTool
pub mod SpiNor
pub mod Xdma
