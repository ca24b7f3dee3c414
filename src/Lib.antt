-- ===== src/Lib.antt =====
-- hashpipe: pipelines of threads over shared data buffers.
--
-- A hashpipe pipeline is a chain of threads. Two neighbours share a data buffer, a ring of blocks in
-- a System V segment with one semaphore for each block: the upstream thread waits for a block to be
-- free, fills it and marks it filled; the downstream thread waits for it to be filled, empties it and
-- marks it free. All threads of an instance share a status buffer of FITS records, under a POSIX
-- semaphore. Input threads take packets from a ring that is mapped from the kernel.
--
-- Base: numbers, Boolean tests, lists, bits and integers that all parts share.
-- Ipc: the kernel's System V calls, as a parameter with the laws that the manual pages give, and in
--   Ipc/Table a small kernel that keeps these laws.
-- IpcKey: src/hashpipe_ipckey.c. getenv, ftok and strtoul are the parameter Env.
-- Databuf: src/hashpipe_databuf.c. `create` is hashpipe_databuf_create: `get_segment` makes its calls
--   of shmget, and the functions `after_...` are its body from the answer of one call to the next,
--   so that the state that each call sees is the one that the call before it left. Databuf/Locks has
--   the waits, the sets and the totals. A busy wait runs on a number of attempts, and the other
--   processes are an argument that changes the kernel's state before each of them.
-- Packet: src/hashpipe_packet.h, on a little-endian host. The loop that folds the carries of the
--   checksum runs on fuel, 3 rounds for any header.
-- Pktsock: src/hashpipe_pktsock.c and its header: the ring that is shared with the kernel. What the
--   kernel writes into the ring between two calls is an argument.
-- StatusBuf: src/hashpipe_status.c. The functions of fitshead.h, a copy of WCSTools, are the parameter
--   Fits. StatusBuf/Lock is the lock as a step relation on any number of threads, StatusBuf/Serial
--   adds the buffer and the steps of the edits between lock and unlock, and StatusBuf/Edits has
--   two of these edits.
--   StatusBuf/Attach is hashpipe_status_attach, as functions from the answer of one call to the next.
-- Thread: src/hashpipe_thread.c and src/hashpipe_thread_args.c: the table of thread descriptors and
--   the arguments of a thread.
-- Executable: src/hashpipe.c: CPU masks, and the functions that initialise and run every thread. What
--   they call answers through a record, and what they acquire and release is a list of events; the
--   labels of the gotos are functions. `gone` is a thread that is cancelled: inside its
--   run function, where it reports that a data buffer is not attached, or where it waits for the
--   lock before its exit status.
--   Executable/Command is main: `handle` is what one option does, `handle_all` the whole command line,
--   and `run_all` what follows.
-- Ibv: src/hashpipe_ibverbs.c: the free send packets as a heap of links, where a packet is its index
--   in the buffer, and the states of the queue pairs. Ibv/Interface has the identifier of an
--   interface, Ibv/Device the search for its device, Ibv/Setup the addresses, work requests and lists
--   that hashpipe_ibv_init makes, and Ibv/Init what it acquires, as a list of what is to be given
--   back; Ibv/Receive has hashpipe_ibv_recv_pkts, with the completions as a list, Ibv/Flow
--   hashpipe_ibv_flow, on a table of handles and a state of the kernel, and Ibv/Shutdown
--   hashpipe_ibv_shutdown, as the list of the calls it makes. Ibv/Traffic and Ibv/Receive/Traffic are
--   the ways of the packets between the library, its caller and the queue pairs, as step relations.
-- Udp: src/hashpipe_udp.c: the loop over the addresses of a host.
-- Log: src/hashpipe_error.c: the bytes that each function writes.
-- Tools: the programs src/hashpipe_check_databuf.c, src/hashpipe_check_status.c,
--   src/hashpipe_clean_shmem.c, src/hashpipe_dump_databuf.c and src/hashpipe_write_databuf.c, from
--   the list of their options to the exit code. The loop of hashpipe_write_databuf runs on fuel, 2^31
--   rounds for any number of bytes, as every round reads one byte or more.
-- Sink: src/null_output_thread.c: `step` is one step of its run function. Sink/Pipeline is a system of
--   this thread and an upstream thread on one buffer, as a step relation; the upstream thread is the
--   protocol that src/hashpipe_databuf.h describes. A wait that times out is a step of its own, so no
--   fuel is needed.
-- Tests: the theorems applied to concrete states.
--
-- Words are natural numbers with the wrap written out; identifiers are integers where the code stores
-- -1 in them. The other parts leave their log messages out. Not modelled: the timestamps of
-- InfiniBand packets, which the library only reports; src/fitshead.h, src/hget.c and src/hput.c, a copy
-- of WCSTools.
pub mod Base
pub mod Ipc
pub mod IpcKey
pub mod Databuf
pub mod Packet
pub mod Pktsock
pub mod StatusBuf
pub mod Thread
pub mod Executable
pub mod Ibv
pub mod Udp
pub mod Log
pub mod Tools
pub mod Sink
pub mod Tests
