-- ===== src/Lib.antt =====
-- Verification of parts of the operating systems coursework in this repository: the allocator of
-- malloc/, the scheduler of the JOS kernel in sched/, the file system in fisopfs/, the shell
-- in shell/ (its parser and its history), and the sieve of fork/.
--
-- Base: names of the libraries that every module uses, tests on numbers, lists with native indices,
-- and 32-bit words as bit patterns.
--
-- Malloc: malloc/malloc.c and malloc.h, for a 64-bit machine (a region header of 32 bytes, a block
-- header of 16).
--   Malloc/Memory: `struct region` and `struct block` at addresses, the globals, errno and the bytes
--   of the user, as one state `Heap`; a command ends in a value, in a read through a pointer to no
--   header, or out of fuel. Headers are typed cells: bytes that a caller writes past its region, or
--   that `memcpy` writes over an old header, do not change a header in the model.
--   Malloc/Region: find_in_block, split, merge, coalesce. Its children prove them against the cells
--   of a block that lie end to end (Tiles).
--   Malloc/Blocks: find_free_region, size_that_fits, grow_heap, unmap. `mmap` and `munmap` are the
--   parameter `Os`; a successful `munmap` takes the headers of its pages away. The loops over regions
--   have 1048577 rounds, one more than the headers that 32 MB have room for, and those over blocks
--   33, one more than MAX_BLOCKS.
--   Malloc/Api: malloc, free, calloc, realloc, get_stats. The build's FIRST_FIT and BEST_FIT are the
--   argument `Policy`. The invariant over all blocks is not stated yet.
--
-- Sched: sched/kern/sched.c, and what it uses of sched/kern/env.c, trap.c and syscall.c.
--   Sched/Env: `struct Env` with its scheduling fields, the table `envs` and the globals as one CPU
--   sees them under the big kernel lock; envid2env, env_init, env_alloc, env_run. What env_setup_vm
--   returns is an argument of env_alloc; registers and page directories are left out, and
--   the IPC fields stand in Sched/Ipc.
--   Sched/Yield: sched_yield under SCHED_ROUND_ROBIN (`sched_yield_rr`) and under
--   SCHED_PROPORTIONAL_SHARE (`sched_yield`), sched_halt up to the wait for an interrupt, the tickets,
--   the boost, and the timer branch of trap_dispatch. An `int` is its bit pattern below 2^32. Since
--   env_run does not return, a call of sched_yield ends in an `Outcome`.
--   Sched/Destroy: env_free and env_destroy of env.c, the zombie's case of trap in trap.c, and the system
--   calls on environments with their cases of the dispatch `syscall`. A call ends in a `Sys`: it returns,
--   or sched_yield, a parameter, leaves it. FreeList is about the free list, Counted about
--   `total_tickets`, Reuse about a slot that is used again, Priority about SYS_reduce_priority.
--   Sched/Ipc: sys_ipc_recv and sys_ipc_try_send of syscall.c on the IPC fields, which a `System` keeps
--   beside the kernel. What page_lookup, env_page_alloc and env_page_map answer is an argument.
--   Sched/Pages: pmap.c from page_init to page_remove, and user_mem_check. A page is its place in `pages`,
--   a pointer to an entry is a page and a place in it, and a panic has no result. `Sound` in Pages/Sound says
--   how the free list, the tables below UTOP and the reference counts fit together. Count counts the entries
--   that refer to a page, Space says what an address is mapped to, and Init, Allocated, Entries, NewTable,
--   Decref, Walk, Remove, Insert and Check follow the functions. The TLB is not modelled.
--   Sched/Vm: env_setup_vm, what env_free does to the page tables, and sys_page_alloc, sys_page_map and
--   sys_page_unmap of syscall.c; Vm/PageAlloc and Vm/Grants are about the first two calls.
--   Sched/Numbers: printnum of lib/printfmt.c, with a putch that collects what it gets, and strtol of
--   lib/string.c, on numbers below 2^32. printnum takes 64 calls at most, one for each bit of its number.
--
-- Shell: shell/history.c as Shell/History: load_history, _save_command_in_memory, and what the arrows
--   show. The array is a list of slots, each never written, NULL or a string; a write outside the
--   array, or a copy from a slot without a string or of a string longer than the buffer, has no
--   result. malloc and realloc of the C library always succeed. The lines that fgets reads are an
--   argument of load_history; `alloc_size` is an `int`, and doubling it past
--   2^31 - 1 has no result.
--   Shell/Parsing: shell/parsing.c, with split_line, block_contains and createcmd.c. A pointer into the line
--   buffer is the bytes from there on; a string is its characters. getenv and the exit status are the
--   parameter `Environ`. A token that does not fit its block of ARGSIZE bytes, and a command that
--   does not fit scmd, is a fault. parse_line takes fuel, which Parsing/Ends shows to be enough.
--
-- Fisopfs: fisopfs/fisopfs.c, fisopfs.h, bitmap.c and bitmap.h, on a 64-bit machine.
--   Fisopfs/Bitmap: bitmap.c; `w | 1 << k` and the like go by the binary digits of `w`.
--   Fisopfs/Disk: the state `Fs`, the inodes, data blocks and entries as pointers by number, how a run
--   ends, init_inode, init_data_block and fisopfs_init. The data region has two typed views, bytes for
--   files and entries for directories. An access outside an object, through NULL, or a failed assertion
--   has no result. The clock does not move within a call.
--   Fisopfs/Files: write_file, shrink_file, and the bodies of fisopfs_read and fisopfs_truncate. `Sound`
--   in Files/Sound says who owns which block. The loops recur on the rounds that their bounds give.
--   Fisopfs/Paths: split_path, and the components that find_inode takes by strtok.
--   Fisopfs/Dirs: find_in_dir, find_inode, insert_dentry, and the loop of unlink_inode.
--   Fisopfs/Calls: the operations that fuse calls. Saving and loading keep the state as it is.
--
-- Fork: fork/primes.c as Fork/Primes. A pipe is the numbers written to it, in their order; system calls
--   do not fail; what the processes print is listed in the order in which it is written out. Standard output
--   is a terminal, which takes each line at once, or takes what is printed when a process exits; the buffer
--   for that, which a fork copies, is not bounded. Each process
--   passes on fewer numbers than it reads, so that `n` rounds of `child` are enough.
--
-- Not modelled: the static mappings above UTOP and the checks of pmap.c at boot, traps other than the timer and a
-- zombie's, devices and boot of the kernel, the rest of the shell in shell/, the other exercises in
-- fork/, and test programs.
pub mod Base
pub mod Fisopfs
pub mod Fork
pub mod Malloc
pub mod Sched
pub mod Shell
