-- ===== src/Lib.antt =====
-- A kernel for RISC-V and LoongArch machines. This library models parts of it whose logic does not
-- depend on the hardware, and proves what makes them correct.
--
-- The parts, by file, with the code they translate:
--
-- - Base, Base/*: shared notation, lists, slices and counting over the native numbers; no code.
-- - Ids, Ids/*: os/src/process/id.rs and os/src/mm/id.rs. `RecycleAllocator` hands out numbers for
--   pids, tids, kernel stacks, address spaces, message queues and shared memory; `alloc`,
--   `dealloc`, `tid_alloc`, `drop_tid` (`Drop for TIdHandle`), `asid_alloc`,
--   `kernel_stack_position`, `kstack_alloc` and `kstack_drop` (`Drop for KernelStack`) are the
--   functions of those names.
-- - Frames, Frames/*: os/src/mm/frame_allocator.rs, with `PageSize` of os/src/mm/page_table.rs. The
--   three stacks of recycled blocks are lists with the end of the `Vec` first.
-- - Sched/Task, Sched/Rt, Sched/Rt/*: os/src/process/scheduler/rt_rq.rs. A word of the bitmap is
--   the list of its bits. `served` is the order in which the queues are served.
-- - Sched/Cfs, Sched/Cfs/*: os/src/process/scheduler/cfs_rq.rs, and Sched/Deadline,
--   Sched/Deadline/*: deadline_rq.rs there, both over the interface of their red-black tree
--   (os/src/process/scheduler/rbtree.rs) in Sched/Tree: a record of the operations and their laws
--   on the entries in order. Sched/Tree/Listed has a tree for which the laws hold.
-- - Sched/Sleep, Sched/Sleep/*: os/src/process/scheduler/nanosleep.rs. The binary heap is the list
--   of its entries from the one that it pops first.
-- - Mm, Mm/*: os/src/mm/memory_set.rs. Area has `MapArea`; Space has `MemorySet`,
--   `find_free_area_locked` and `has_conflict_locked`; Munmap has `munmap_locked`; Mmap has `mmap`
--   and `mremap_inplace`; Protect has `split_area_at`, `mprotect` and `mlock_range`. A `BTreeMap`
--   is a list in the order of its keys, and an operation under the write lock is one step. View
--   says what an address space holds at each page (`page_at`), and the operations are proved on
--   that.
-- - Sync/RwLock, Sync/RwLock/*: os/src/sync/rw.rs, as a step relation: `Move` has a constructor for
--   every atomic access and every branch, `Step` lets any thread move, `Reach` are the runs.
-- - Sync/Semaphore, Sync/Semaphore/*: os/src/sync/semaphore.rs, with `block_current_and_run_next`
--   and `wake_up_one` of os/src/process/scheduler/wait.rs, as a step relation of the same kind;
--   `Interrupt` is a wake-up from outside, by `wake_up_task` of os/src/process/scheduler/runqueue.rs.
-- - Sync/Futex, Sync/Futex/*: os/src/process/scheduler/futex.rs. `Store` has what the queues, the
--   locations of waiters and the global map hold; the functions have the source's names, and
--   Reach has the runs in which threads call them in any order.
-- - Boot, Boot/*: os/src/mm/boot_memory.rs for RISC-V, `init` and `platform_memory_range`.
-- - Signal, Signal/*: os/src/process/signal. Flags has state.rs; Frame and Handler have frame.rs,
--   `call_signal_handler` of delivery.rs and `sys_sigreturn` of os/src/syscall/process.rs; Delivery
--   has the rest of delivery.rs. A set of signals is the list of its bits. `UserMemory` is the
--   interface to a user's address space: its operations, and that a frame reads as it was written.
-- - Pipe/*: os/src/fs/pipe.rs. Ring has `PipeRingBuffer`; Io has `read_for_syscall`, `write` and
--   `write_nonblock`. What other processes do while a caller waits is an argument, one record for
--   each wait, so that the loops are recursion on the list of waits.
-- - Ext4/Checksum, Ext4/Checksum/*: os/src/ext4fs/checksum.rs. A byte slice is a list; a setter
--   returns the written one. Ext4/DirEntry, Ext4/DirEntry/*: os/src/ext4fs/ext4_dir_entry.rs.
-- - Ipc/Msg, Ipc/Msg/*: os/src/ipc/msg.rs, with `IpcPerm` of os/src/ipc/mod.rs. It takes its ids
--   from Ids, whose invariant is a field of its own.
-- - Ipc/Shm, Ipc/Shm/*: os/src/ipc/shm.rs, on the same identifiers. Ipc/Table: the maps of both.
-- - Auth, Auth/*: os/src/auth/mod.rs and os/src/process/task/cred.rs. A file mode is a number.
--
-- The parts meet in a few places: Ipc/Msg, Ipc/Shm and the kernel stacks are clients of the identifiers,
-- signals are clients of the user's memory, the fair and the deadline queue are of the tree, and the
-- other parts stand alone.
--
-- Conventions: a panic is `none` (a failed assertion, an `expect`, an out of range argument); inside the
-- loops of `munmap_locked` it is a flag of the pages, which the operation turns into `none`. Errors
-- are values of an error type of the part. Machine integers are native numbers; wrap-around is
-- written out where the code can reach it (the counters of `dequeue` in Sched/Rt, the shifts of the
-- checksums, the page number of a frame); elsewhere the values stay far from 2 ^ 64.
--
-- Fuel: `recycle_range` runs its loop with `end - pos` rounds, and each round moves on by a page or
-- more, so that the loop has ended when the fuel has. `remove_scan` makes the 100 rounds of the
-- source's loop. `unmap_pages` and `set_flags_loop` have a round for each page of an area, and a
-- step is a page or more. `scan_loop` of the signals has 64 rounds, and each takes one of 64 bits. No
-- other definition has fuel.
--
-- Not modelled: devices, the levels of page tables, page faults, traps, system call decoding and
-- raw memory, which the kernel only passes through; the heap, a remapping that moves, fork and ELF
-- loading of memory_set.rs; memory orderings weaker than sequential consistency; the zeroing of
-- frames and stacks; the order of the heap of pushable tasks, which nothing reads; the reclaim loop
-- around the frame allocator; the creation of a pipe's two ends and its wait queues; that the arena
-- of rbtree.rs meets the laws of Sched/Tree, and that page tables meet those of `UserMemory`.
pub mod Base
pub mod Ids
pub mod Frames
pub mod Sched
pub mod Sync
pub mod Pipe
pub mod Ext4
pub mod Ipc
pub mod Auth
pub mod Boot
pub mod Signal
pub mod Mm
