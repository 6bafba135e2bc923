-- ===== src/Lib.antt =====
-- The ARMv5 instruction simulator: registers, memory, processor, exceptions and instructions, and the
-- server of the debugger that drives it.
--
-- The program simulates an ARM processor. `arm_step` (arm_instruction.c) fetches a word through
-- the processor (arm_core.c), which owns a register file (registers.c) and a memory (memory.c),
-- decodes it, and calls the handler of its class: arm_data_processing.c, arm_load_store.c or
-- arm_branch_other.c. A handler that returns a code other than 0 makes `arm_step` enter the
-- exception of that code (arm_exception.c). In arm_simulator.c two threads drive one processor: the
-- server of the debugger, whose scanner (scanner.l) cuts the input into packets that gdb_protocol.c
-- checks and hands to the handler of the command, and a listener that turns each byte it receives
-- into an exception. trace.c keeps what is traced, and debug.c the names of the debugged files.
--
-- Files and what they model:
--   Base             Boolean tests on the native numbers, `if`, arrays; Base/Digits: `&`, `|`, `^`
--   Util             util.h, util.c: bit macros, `asr`, `ror`
--   Constants        arm_constants.h, and the register numbers of trace.h
--   Registers        registers.h, registers.c: banked registers by mode
--   Memory           memory.c: bytes, halfwords and words in both byte orders
--   MemoryTest       memory_test.c: the test of the memory, for any values and host
--   Core             arm_core.c: the processor and its accessors, `arm_fetch`; Core/Print:
--                    `arm_print_state`
--   Exception        arm_exception.c, and `arm_create` of arm_core.c
--   Condition        `condition` of arm_instruction.c
--   Branch           arm_branch_other.c: branches, swi, MRS
--   DataProcessing   arm_data_processing.c: operands and their shifts (Operand, Shifter), the 16
--                    opcodes, flags; Subtraction is on the flags of CMP and of the subtractions
--   LoadStore        arm_load_store.c: addressing modes (Address), single and multiple transfers;
--                    Transfer and Loads are on the loops of STM and LDM, Stack, Pop and Restore on
--                    a push and a pop, Single on STR and LDR
--   Instruction      arm_instruction.c: decoding and one step
--   Text             the parts of the C library on texts that the program uses: sscanf, atoi, sprintf
--   Gdb              gdb_protocol.c: the state and the packets that are sent; below it Wire (words as
--                    digits), Commands (the handlers), Packet (check and dispatch); Sent, Answers
--                    and Effects are on what is sent, Snapshot on the commands g and G,
--                    Readback on X and m and on P and p
--   Scanner          scanner.l: tokens, their actions, `gdb_scanner`
--   Simulator        arm_simulator.c: the options, and the steps of the two listeners
--   Debug            debug.c: insertion and search of names
--   Trace            trace.c: what is traced, and the stack of locations
--   Names            arm_constants.c, send_irq.c: names of modes, registers and exceptions
--   Examples         the theorems at concrete inputs
--
-- State is passed explicitly: an operation takes the processor and gives the new one. A pointer
-- argument that C writes through is a result beside the status. `Outcome` is the code and the
-- processor, or the end of the program (`exit`). The `uint32_t *data` of registers.c and of
-- memory.c are functions of the index, of which the code reads the 38 cells and the words that it
-- allocates, but in one case: in a mode that is none of the seven, `getRegister` gives 255, behind the
-- 38 cells. The model has a cell there too; the statements on what a register holds are for valid
-- modes.
--
-- Numbers are the native ones. A `uint32_t` is a number below 2 ^ 32 with its wrap written out; an
-- `int` code of -1 is 2 ^ 32 - 1. A shift by a computed count takes the count modulo 32, as the
-- x86 hosts of the simulator do, since C leaves it undefined. A variable that a failed read leaves
-- uninitialised is a field of `Stale`, and statements hold for each value of it. The memory that
-- `malloc` gives is likewise an argument. Loops have constant bounds (15, 16 registers) and are
-- structural recursion on the rounds that are left. The binary search of debug.c gets one round more
-- than there are names, and the scanner as many rounds as the input has bytes; the theorems on them
-- say that this is enough. The loop of `cont` may run for ever: it takes its rounds as fuel, gives
-- nothing where they do not end it; Gdb/Loop counts the rounds by the steps up to the breakpoint.
--
-- Texts are lists of bytes, with bytes 0 behind the last one that is known. `Unset` holds what the
-- variables of gdb_protocol.c hold that a failed conversion leaves uninitialised. The memory of the
-- server is the memory of its processor, since arm_simulator.c gives it that one. What leaves the
-- program goes to lists in the state: `events` of the server, `lines` of the trace. A handler gives the
-- new state, ends the program, or runs over the array of the packet, behind which nothing is defined
-- (`Run`). The steps of the threads come one behind the other, as
-- the lock orders them.
--
-- Not modelled: the calls of trace.c inside of the processor (they write to the trace file only),
-- the debug messages, which print; sockets, threads and the ports of arm_simulator.c; the array of a
-- packet, of which the text is kept: `read_memory`, whose text alone can be too long, tests the bound;
-- registers_test.c, which prints what it reads at fixed values; the code that flex generates
-- (scanner.c); and csapp.c, a copy of the CS:APP library.
pub mod Base
pub mod Util
pub mod Constants
pub mod Registers
pub mod Memory
pub mod MemoryTest
pub mod Core
pub mod Text
pub mod Exception
pub mod Condition
pub mod Branch
pub mod DataProcessing
pub mod LoadStore
pub mod Instruction
pub mod Gdb
pub mod Debug
pub mod Names
pub mod Trace
pub mod Scanner
pub mod Simulator
pub mod Examples
