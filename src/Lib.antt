-- ===== src/Lib.antt =====
-- Models and proofs for the kernel of SzczupakOS, a small operating system for x86-64 in C.
--
-- The parts that are modelled, and how they interact:
--
-- * Pseudo terminals, src/kernel/pty.c: Pty. A table of slots, each with two byte rings. The
--   terminal writes and reads at the host side by id, a task at the slave side through the slot
--   that it is attached to. Pty/ByteRing holds `ring_push`, `ring_pop` and the loops over them;
--   Pty/ByteRing/Queue shows a ring to be a queue of bytes, Pty/Stream what each call of the table
--   does in terms of these queues, Pty/RoundTrip what comes out at the other side, Pty/Slots
--   opening, attaching, detaching and closing, Pty/Inv the invariant of all calls.
-- * The physical page allocator, src/kernel/mm/pmm.c: Pmm. A bitmap with one flag for each page,
--   the range of memory and a hint where to search. Pmm/Bits relates words and bits to the flags
--   of pages, Pmm/Inv holds the invariant, Pmm/Alloc, Pmm/Free and Pmm/Init are about the
--   operations.
-- * The kernel heap, src/kernel/mm/heap.c: Heap. Blocks in one storage, each behind its header,
--   linked in both directions. Heap/Chain says which list of blocks a store of headers holds,
--   Heap/Merge, Heap/Take and Heap/Free are about the steps that change it, Heap/Used, Heap/Alloc
--   and Heap/Search about the loop of `kmalloc`, Heap/Kmalloc, Heap/Bounds, Heap/Wrap and
--   Heap/Kfree about the calls.
-- * Page tables, src/kernel/mm/vmm.c: Vmm. Tables of four levels in memory, whose pages come from
--   the page allocator. Vmm/Entry is about reading and writing entries, Vmm/Tables says which
--   memory is a forest of tables, Vmm/Step and Vmm/Walk are about `get_or_create_table`, Vmm/Path
--   about the tables on the way to an address, Vmm/Address about `vmm_get_physical`, Vmm/Map about
--   `vmm_map_page` and Vmm/Unmap about `vmm_unmap_page`.
-- * Access to user memory, src/kernel/mm/uaccess.c: Uaccess. It checks the tables of the current
--   task before it copies, page by page, through `vmm_get_physical`. Uaccess/Range is about the
--   checks, Uaccess/Copy about `copy_from_user`, Uaccess/Strings about `strncpy_from_user`.
-- * Copies of memory, src/kernel/string.c: Strings, with `memcpy` and `memmove`. Strings/Copies
--   says what a copy does, Strings/Loops is about the loops of `memcpy`, Strings/Move about both
--   functions.
-- * The scheduler, src/kernel/task/scheduler.c: Scheduler. The ready queue is linked through the
--   tasks (include/kernel/task/task.h), which are a store from addresses to tasks. Scheduler/Queue
--   says which list a store links up. Scheduler/Walk and Scheduler/Add are about
--   `scheduler_add_task`, Scheduler/Remove about `scheduler_remove_task`, Scheduler/Dequeue and
--   Scheduler/Switch about `schedule`, Scheduler/Interrupt about `schedule_from_irq`.
-- * Of the network stack: Net. Net/Bytes has the conversions and Net/Checksum the checksums of
--   src/kernel/net/net_utils.c, Net/Arp its ARP cache, which the IP layer asks for the MAC
--   address of the next hop, and Net/Dns the names and messages of src/kernel/net/net_dns.c, the
--   constants of both from src/kernel/net/net.c. Net/Checksum/Verify, Net/Arp/Search,
--   Net/Arp/Lookup, Net/Dns/Encode, Net/Dns/Parse and Net/Dns/Response hold the proofs. Net/Tcp
--   has the client connection of src/kernel/net/net_tcp.c: Net/Tcp/Order, Net/Tcp/Stream and
--   Net/Tcp/Prefix are about the bytes that it takes from segments, Net/Tcp/Kept about the
--   fields that no segment changes, Net/Tcp/Delivery about a peer that repeats what is not
--   acknowledged, and Net/Tcp/Packet has the way of a packet through `net_handle_tcp`.
-- * FAT16 volumes, src/kernel/fs/fat16.c: Fat16. Tables of clusters in the sectors of a disk, and
--   files along chains of clusters. Fat16/Place says where an entry stands, Fat16/Table sees all
--   copies of the table as one function, Fat16/Mount is about the boot sector and `fat16_mount`,
--   Fat16/Release and Fat16/Freed are about `fat16_release_cluster_chain`, Fat16/Allocate about
--   `fat16_allocate_cluster`. Fat16/File has `fat16_read`; Fat16/File/Position,
--   Fat16/File/Sectors and Fat16/File/Read are about its loops. Fat16/Write has `fat16_write`;
--   Fat16/Write/Place says where the bytes of a file stand, Fat16/Write/Sectors and
--   Fat16/Write/Loop are about the loop over sectors, Fat16/Write/Overwrite about the loop over
--   clusters and Fat16/Write/RoundTrip about reading after writing. Fat16/Name has the names of
--   entries: Fat16/Name/RoundTrip is about those of listed nodes, Fat16/Name/Created about those of
--   new files.
-- * Files in memory, src/kernel/fs/tmpfs.c: Tmpfs, with `tmpfs_read` and `tmpfs_write`.
--   Tmpfs/Copy is about their loops, Tmpfs/Write about writing, Tmpfs/RoundTrip about reading.
-- * Base passes on what all of these share: Boolean tests on numbers with their lemmas
--   (Base/Tests), lists (Base/Lists), arrays (Base/Arrays), machine words (Base/Words), their bits
--   (Base/Digits), memory as bytes and 64-bit words in it (Base/Bytes) and integers (Base/Int).
--
-- Each definition has the name of the C function, without the prefix of its component where the
-- module says it, or names the function in the comment above it. A function that reads and writes
-- a static variable takes the state and returns it changed. The modules named Tests apply the
-- theorems to small inputs and run the code.
--
-- Modelling choices:
--
-- * Unsigned integers are natural numbers; additions and subtractions that could wrap do so at the
--   width of the C type (`add64`, `sub32`). An `|` of operands without a common bit is a sum, a
--   mask or a shift a quotient or a remainder by a power of two.
-- * A call of a function that changes static variables is one step. The functions of the memory
--   managers and of the scheduler hold a spin lock with interrupts off while they change them,
--   those of pty.c turn interrupts off; the file systems and the network stack take no lock, and
--   the model assumes that one call ends before the next begins. The lock of `schedule` and
--   `schedule_from_irq` covers taking the head of the ready queue only; what follows, also
--   putting a task back by `scheduler_add_task` with a lock of its own, belongs to the same step
--   in the model, so an interrupt between the two is not modelled. What functions print on the
--   serial line is left out.
-- * A null pointer that the code tests for is an option or a flag where a theorem depends on it;
--   the static functions of the network stack are only called with pointers that are not null.
-- * A word of the page bitmap is a function from its bits.
-- * The direct map makes each physical address a pointer, so that a pointer to a page table is its
--   physical address. The tables stand in the memory of the page allocator, which clears pages in
--   it.
-- * The headers of heap blocks are a store apart from the bytes of the blocks. The lock of the
--   heap may time out, so whether it is taken is an argument.
-- * A copy from user memory returns the bytes that it stores, with the error code.
-- * Ticks and the frequency of the timer are arguments, as is whether a task's page table maps the
--   kernel after its synchronization.
-- * Whether the card sends a segment is an argument of the TCP client, with the time and the own
--   address, and what it sends is returned.
-- * The disk that the ATA driver reaches is a store of sectors, each a function from offsets to
--   bytes, in which any may fail to be read or written; the driver refuses the sectors behind
--   the last one of the disk. The theorems about healthy disks ask for the sectors below a total
--   only, which has to cover the tables and the clusters that are used. A 16-bit field of a
--   sector is two bytes, the low one first. The pointers that the driver tests are not null and
--   a volume is mounted.
-- * The blocks that `kmalloc` gives to `tmpfs_write` are an argument, a function from the size.
-- * A C string is the list of its bytes before the NUL, and a summed packet the list of its bytes.
--   A packet that is parsed is its memory from a pointer on, with a length.
--
-- Bounds and fuel: loops with a counter are structural recursion on what is left. The folding loop
-- of `checksum_finalize` has fuel 3, since any 32-bit sum needs two rounds at most. The loop of
-- `dns_skip_name` counts its labels itself and fails at the 129th. The loop of `kmalloc` counts
-- its steps itself, and a heap has fewer blocks than its limit. The loops of uaccess.c have the
-- size as fuel, since every round passes a byte at least, and the theorems show that it is enough.
-- The walks along the ready queue have fuel as an argument, and the theorems show that the length
-- of the queue is enough. The loops of `fat16_read` and `fat16_write` over clusters have a round
-- for each byte and one more, since every round passes a byte at least.
-- `fat16_release_cluster_chain` counts its rounds itself, and the theorem shows that its limit is
-- never reached.
--
-- Not modelled: the other protocols, the drivers, the machine layer and the user programs, which
-- are mostly input and output through registers; of the page tables the address spaces of
-- processes as a whole (creation, destruction, the copy of the kernel mappings), whose directories
-- come from the kernel heap; and, for lack of work so far, the ELF loader, the rest of string.c,
-- the nodes and paths of the virtual file system, the directory sectors of FAT16, and the
-- system calls.
pub mod Base
pub mod Pty
pub mod Pmm
pub mod Net
pub mod Scheduler
pub mod Vmm
pub mod Uaccess
pub mod Heap
pub mod Strings
pub mod Fat16
pub mod Tmpfs
