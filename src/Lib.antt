-- ===== src/Lib.antt =====
-- A port of the GameCube SDK to a host, in C, under sdk_port: the SDK's data structures stay in
-- emulated RAM, big-endian and at their original offsets, and the SDK's state that no memory dump
-- shows is in host structures or in a page at the end of that RAM. The components share the
-- emulated RAM; the message queues, mutexes and threads call the scheduler, the check of a card reads
-- what its block allocator writes, the serial interface disables interrupts, all others stand alone.
--
-- The files and the code that each is about:
--   GcMem      sdk_port/gc_mem.c: the buffer, `gc_mem_ptr`, and the loads and stores that every
--              component defines over it. GcMem/Laws has the laws of loads and stores, GcMem/Chain
--              singly linked lists in RAM, GcMem/Dll doubly linked ones, from which GcMem/Unhook
--              takes a structure out and into which GcMem/Hook puts one.
--   SdkState   sdk_port/sdk_state.h: the mirror page.
--   Ar         sdk_port/ar/ar.c: `port_ARInit`, `port_ARAlloc`, `port_ARFree` and the getters.
--   Arq        sdk_port/ar/arq.c: the request queues, `port_ARQPostRequest`, the service routine.
--   OsThread   sdk_port/os/osthread.c: Bits (`port_cntlzw`), Queue (the thread and mutex lists),
--              Priority (effective priorities and the run queue), Scheduler (`port_SelectThread`,
--              sleep and wake-up), Links (the queues as doubly linked lists), Chosen (which
--              thread runs next), Threads (the life of a thread), Mutex (with condition
--              variables), Message.
--   OsAlarm    sdk_port/os/OSAlarm.c: the list of alarms.
--   OsAlloc    sdk_port/os/OSAlloc.c: the list helpers here, Heaps the operations on heaps, Check
--              `OSCheckHeap`. Lists is about the helpers, Errors about requests turned down; for
--              `OSAllocFromHeap`, Blocks has a heap as lists of blocks, Ends, Members, Take, Whole,
--              Split, Part and Give its stores one after another, FirstFit the specification, and
--              Alloc the whole call.
--   OsInterrupts  sdk_port/os/OSInterrupts.c: the flag, Section critical sections.
--   Si         sdk_port/si/SI.c: the sampling rate, transfers that wait, Response the responses.
--   OsTime     sdk_port/os/OSTime.c: Clock (days, seconds and the rest of a count), Years and Months
--              (the two loops of `GetDates`), Dates and Times (the calendar time).
--   OsStopwatch  sdk_port/os/OSStopwatch.c.
--   OsModule   sdk_port/os/OSModule.c: Links (`OSLink`, and lists of host objects), Unlink.
--   DvdQueue   sdk_port/dvd/dvdqueue.c: the waiting queues.
--   Dvd        sdk_port/dvd/DVD.c: Files (the files of the tests, reading), Paths (from a path to an
--              entry of the file system table: Tree has the table as a tree of names, Search the loop
--              over a directory, Component what one turn makes of a component, Walk and Convert the
--              walk), Names (from an entry to its path: Copied and Spelled).
--   Exi        sdk_port/exi/EXI.c: the channels here, Imm the transfers; Sound, Started and Runs are
--              about sequences of calls. A hook for direct transfers sees host memory alone.
--   Card       sdk_port/card: Fat (card_fat.c), Dir (card_dir.c), Unlock (card_unlock.c), Check
--              (CARDCheck.c, with Copies about the two copies of each table, Agree about card_fat.c),
--              Memcard (memcard_backend.c, with Kept about what survives an eject).
--   Pad        sdk_port/pad/PAD.c: clamping, reset and recalibration.
-- A C function `port_DVDPushWaitingQueue` is the definition `push_waiting_queue`, and so on; a
-- comment names the C function where the names differ more.
--
-- State is passed explicitly: a host structure is a record, emulated RAM is the record `Mem`. The
-- operations of osthread.c are programs of the monad `M` over both. A 32-bit value is a native
-- number with `% 2 ^ w` written out, and a signed one is its bit pattern, compared in two's
-- complement. A load outside the mapped range gives 0 and a store there does nothing; where the C
-- code would follow a null pointer the theorems assume mapped memory.
--
-- Loops that count are recursion on a number. Walks along links, and the search for free blocks, are
-- recursion on fuel with no result when it runs out: one turn for each structure of a list is
-- enough, for the search one turn more than the card has blocks, for the year of a day two turns more
-- than a 365th of its number. With no thread waiting, the message queues need fuel of one. The
-- integers of OSTime.c are unbounded ones: no 64-bit count leaves the types of the source, but for the
-- first second of their range.
--
-- The walk along a path takes one turn more than the path has characters, and a directory is searched
-- within as many turns as the table has entries. The spelling of a path takes one turn more than it has
-- names, a transfer in pieces of four bytes one more than it has pieces.
--
-- Not modelled: the other files of sdk_port. gx and mtx are register packing and floating point; the
-- rest are call counters, stand-ins for tests, or components that stand apart from those here
-- (VI.c but for `VIGetTvFormat`, CARDMount.c and card_bios.c). tests and tools are harnesses and scripts. The files of
-- the host are part of the state of memcard_backend.c: a file is opened, read whole and replaced, and
-- an argument says whether and how far a write succeeds.
pub mod Base
pub mod GcMem
pub mod SdkState
pub mod Ar
pub mod Arq
pub mod OsThread
pub mod OsAlarm
pub mod OsAlloc
pub mod OsInterrupts
pub mod Si
pub mod OsTime
pub mod OsStopwatch
pub mod OsModule
pub mod DvdQueue
pub mod Dvd
pub mod Exi
pub mod Card
pub mod Pad
