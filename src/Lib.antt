-- ===== src/Lib.antt =====
-- Lyre's kernel: memory, pipes, files, disks, events and timers.
--
-- The kernel gives programs memory, files and threads. A file descriptor points to a description,
-- which points to a resource with a table of operations; a pipe, a file in memory, a character device
-- and a partition of a disk are such resources. A thread that must wait does so on events, which other
-- threads, and the timers, trigger. Under them lie the allocator of physical pages, the page tables
-- that are made of them, and the small data structures that every part uses.
--
-- * Base holds the tests, list lemmas, bit laws and integers that the other modules share.
-- * Misc is kernel/lib/misc.k.h: the macros of the same names in lower case.
-- * Bitmap is kernel/lib/bitmap.k.h: a bitmap is a list of bytes, and Bitmap/Laws has the laws of a bit
--   after a write.
-- * Pmm is kernel/mm/pmm.c: the record `Pmm` has its static variables, and each function is one of the
--   same name. The loops of inner_alloc and of pmm_init recur on the rounds that are left, so that no fuel
--   can run out. Pmm/Search is about the search for a run of pages, Pmm/Alloc about allocation, Pmm/Free
--   about release, Pmm/Live about sequences of both, Pmm/Init and Pmm/Place about the state at boot and
--   Pmm/Size about the size of the bitmap. A page at the address 0 is NULL, as in the source.
-- * Vmm is kernel/mm/vmm.c and kernel/mm/vmm.k.h: a table is a function from indices, known by the address of
--   its page, and the record `Machine` has them all. Where pages come from is the interface `PageSource`,
--   which Vmm/Source shows Pmm to be. Vmm/Pte is about the bits of an entry, Vmm/Tree about the tables as a
--   tree, Vmm/Alloc about a new table in it, Vmm/Descend about the walk through the levels, Vmm/Entries about
--   the entries as a function from addresses, Vmm/Map about mapping and unmapping pages, and Vmm/New about new
--   address spaces.
-- * Slab is kernel/mm/slab.c, over Pmm: memory is a function from addresses to words, and a slab is known by
--   its index. Slab/Chain is about the list of free blocks, Slab/Blocks about the blocks of a new page.
-- * Pipe is kernel/ipc/pipe.c: the record `Pipe` is the structure, a call that waits is the part before
--   and the part after the wait. Pipe/Ring is about the ring buffer, Pipe/Refine about the queue that the
--   pipe is, Pipe/Poll about its readiness flags.
-- * Files is kernel/lib/resource.c: the descriptions of all processes by address, and the table of a
--   process as a list. A resource is the record of its operations, which are parameters. Files/Calls has
--   the system calls; the other files are about the operations they are named for, and Files/Leak about
--   the references that a read leaves.
-- * Event is kernel/lib/event.c: events and threads by address, and event_await as the steps before and
--   after sched_yield. The run queue of kernel/sched/sched.c is the list of the threads in its slots. Event/Settled and Event/Attach have what one step keeps, Event/Trigger whom a
--   trigger wakes, and Event/Steps sequences of steps.
-- * Time is kernel/time/time.c and kernel/time/time.k.h: the clocks, the timers by address and the list of
--   armed ones. Time/Spec is about nanoseconds, Time/Countdown about when a timer fires, Time/Armed and
--   Time/Arming about the list, Time/Handler about an interrupt and Time/Interrupts about many.
-- * Libc is the part of kernel/lib/libc.c on bytes, and strncpy: memory is a function from addresses.
-- * Hashmap is kernel/lib/hashmap.k.h: each macro is a function of its name, and the outcomes of the
--   allocations are arguments. Hashmap/Keys is about the
--   comparison of keys, Hashmap/Scan and Hashmap/Drop about one bucket, Hashmap/Buckets about the array of
--   them, Hashmap/Laws about insertion and Hashmap/Remove about removal.
-- * Vector is kernel/lib/vector.k.h: each macro is a function of its name, and the array is a function
--   from indices. Vector/Shift is about the loops, Vector/Laws about insertion and removal.
-- * Tmpfs is kernel/fs/tmpfs.c: a file is its block of bytes, as a function from the offset, and its
--   status. The loops that double the capacity have 64 rounds of fuel, which is enough for every write that
--   ends below 2^63 to a file with a block; without a block no fuel is. A copy outside of the block has no result. Tmpfs/Grow is about these loops,
--   Tmpfs/Laws about reading and writing, Tmpfs/Truncate about truncation and what reads give back,
--   Tmpfs/Files has the nodes and Tmpfs/Inodes their inode numbers and links.
-- * Initramfs is kernel/fs/initramfs.c: the loop over the archive gives the list of the calls that it makes.
--   Its fuel counts entries. Initramfs/Unpack is about its end, Initramfs/Octal about the numbers in a header.
-- * Random is kernel/lib/random.c: the state is a function from the index to the word. The loop over the words
--   of a buffer has one round of fuel more than bytes, which is enough. Random/Twist is about the words,
--   Random/Fill about the bytes of a buffer.
-- * Streams is kernel/dev/char/streams.c, over the memory of Libc and the generator of Random.
-- * Partition is kernel/dev/storage/partition.c: the disk is the interface `BlockDevice`, and a partition
--   is one again. Partition/Isolation is about reading and writing inside of a partition, Partition/Table
--   about what is found on a disk.
--
-- Every module of a stateful part has a child Examples, which runs it on concrete values.
--
-- All calls run with their locks held, which is where the kernel takes them; an allocation that can fail
-- is an argument where its failure matters. Sizes are natural numbers. The address translation of the
-- processor, the log and the registration of devices are left out. The memory maps, the tree of the virtual
-- file system, the file systems on disks and the sockets are not modelled: each is large enough to be a
-- development of its own. The rest, drivers, interrupt controllers and context switches, is hardware state.
pub mod Base
pub mod Misc
pub mod Bitmap
pub mod Pmm
pub mod Vmm
pub mod Slab
pub mod Pipe
pub mod Files
pub mod Event
pub mod Time
pub mod Libc
pub mod Hashmap
pub mod Vector
pub mod Tmpfs
pub mod Initramfs
pub mod Random
pub mod Streams
pub mod Partition
