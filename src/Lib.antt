-- ===== src/Lib.antt =====
-- HsqOverNand: a computer with one instruction, SUBLEQ, whose subtraction runs on NAND flash. A flash
-- cell that is programmed several times without an erase holds the AND of what was written, and an
-- instruction of the flash CPU can copy a byte inverted, so that a cell is a NAND gate. The server
-- generates a gate network for two 64-bit subtractions, gives every write of the network a step,
-- writes the instructions of the steps as a ROM to the flash, and executes them once for each request.
--
-- The parts, in the order in which they use one another:
--   Base (and below)      lists, options and Boolean tests over the native numbers
--   Netlist               `Sig`, `Write`, `Cell`, `Netlist` of src/server/ROM.cpp: the builder is a state
--                         and option monad over the netlist. Meaning has the values of cells, Gates the
--                         lemmas of andOf, orOf, xorOf and buf, Check a test for satisfied netlists, Grow
--                         and GrowGates the shape and the number of the cells that are built
--   Word                  the numbers that 64 bits stand for, and subtraction modulo 2 ^ 64; Shift has the
--                         shift registers of GET_IN and PUSH_OUT
--   Lane                  `build_lane` of src/server/ROM.cpp: the subtraction of one lane. Borrow and
--                         Lookahead treat the look-ahead, Levels the hierarchy, IsJmp the jump test,
--                         Correct and Subtraction the lane as a whole; Grow, GrowParts, GrowLane and
--                         Inputs count its cells and say where its inputs are
--   Schedule              `Netlist::schedule` of src/server/ROM.cpp; Valid says what a schedule is, Count,
--                         Queue, Start, Writes, Settle and Loop treat its loops, Correct and Returns the
--                         whole, and Evaluate finds the values of the cells of a scheduled netlist
--   Rom                   include/ROM.hpp and `push_op`, `build_round`, `rom_init` of src/server/ROM.cpp;
--                         Program and Init are about the order of its instructions, Built and Outputs
--                         are about the round of build_round and its instructions
--   Nand                  `nandInterface` of include/nandInterface.hpp: the contract of a device, and the
--                         in-memory version (NAND_STUB), which fulfils it
--   Cpu                   `CPU` of include/cpu.hpp and src/server/cpu.cpp: the object is the record Cpu,
--                         with the device, an instance of Nand, and the global `mtd_data`. Fetch and Image
--                         treat the words of the ROM, Boot and Verify the constructor, Page, Step, Upto
--                         and Program the instructions of the steps, Wear and Safety what all keep,
--                         Cycle the order in which the program runs, Aside, Signal and Loop the loop until
--                         the signal, Majority the reading of a byte. Load, Operands and Inputs treat CAP_IN
--                         and GET_IN, Settled the steps, Silent and Output the end of a round, Round and
--                         Computes the whole
--   Round                 the round that build_round makes, on the CPU: Netlist, Lane, Schedule, Rom and Cpu
--                         together; Start has the constructor before it
--   Subleq                the interpreter src/subleq/subleq.cpp: Plain is a plain SUBLEQ machine with ports,
--                         Step compares the two, Safety says when the interpreter stays inside of its array
--   Server                `ClientTracker` of src/server/server.cpp
--   Flash                 `W25NSpiFlashDevice` of include/W25NSpiFlashDevice.hpp over the calls of its
--                         driver: Contract has what a chip does, Address where a byte lies, Read, Wait,
--                         Chunk, Write, Erase and Bad the operations, Refine and Start their use by the
--                         CPU, Sim a simulated chip
--   Spi                   the driver src/spi/w25n_spidev.c over the calls of the kernel, which are in System;
--                         Wait has its deadline, Report what it says of the chip, Open its resources
--   Hat                   `W25NFlashDevice` of include/W25NFlashDevice.hpp over the calls of its driver; Same
--                         and Write compare it with Flash
--   Mtd                   `MTDFlashDevice` of include/MTDFlashDevice.hpp over the calls of the kernel; Device
--                         is its use by the CPU
--   Select                `nandInterface` of include/nandInterface.hpp without NAND_STUB: the backend by
--                         its name, and the LEDs, which Lights treats
--   Worker                `process_requests` of src/server/server.cpp over the calls of the socket and the
--                         CPU; Gather is about the wait for requests, Log about the traffic, Answer about
--                         what is sent
--   Devices               the choice of the devices in `thread_func` of src/server/server.cpp; Kinds compares
--                         their names with what Select makes of them
--   Client                `flashClient` of include/client.hpp over the calls of the socket; Loss says what
--                         it returns, Retry how often it sends and that it ends
--   Csv                   `nandInterface_splitCsv` of include/nandInterface.hpp
--
-- Conventions. `calcAddr` and `romAddr` are passed along. An `assert` that fails and a call of `exit`
-- are `none`. Arrays of the CPU and buffers are functions of the index. Words are natural numbers with
-- the wrap-around written out. The step -1 of an unscheduled write is 0 here. What the program asks of the
-- kernel, of a socket, of a driver or of the GPIO library is a record of operations on a world (Driver,
-- Bus, Pio, Posix, Board, Net, Sock), and what a theorem needs of them is a record of laws beside it, which
-- a simulated system in the tests fulfils.
--
-- Fuel. The queue loop of `schedule` has one unit for each cell, since a cell enters the queue when its
-- last pending write is settled, or at the start. The loops over the bytes of an access have one unit for
-- each byte, since each turn takes at least one; those over the blocks of an erase have one for each byte
-- as well. The polls of a busy chip have one for each microsecond of their limit and two more, since each
-- turn sleeps a microsecond at least; the wait for requests has one for each nanosecond. The drain of the
-- client takes its fuel as an argument, since it depends on what has arrived.
--
-- Not modelled: threads and their locks, signals, the terminal, the texts of messages, src/qspi (the PIO
-- driver of the HAT) and the device tree helpers, which are input and output; the GPIO library, which is
-- taken over from the Raspberry Pi utilities; the vendored PIO library; debug output.
pub mod Base
pub mod Netlist
pub mod Lane
pub mod Word
pub mod Schedule
pub mod Rom
pub mod Nand
pub mod Cpu
pub mod Subleq
pub mod Server
pub mod Csv
pub mod Flash
pub mod Spi
pub mod Client
pub mod Mtd
pub mod Select
pub mod Worker
pub mod Hat
pub mod Devices
pub mod Round
