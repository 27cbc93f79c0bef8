-- ===== src/Lib.antt =====
-- PlantOS: a small kernel for x86-64 with its drivers, file systems, network stack and shell.
--
-- The parts of the kernel (paths from the root of the repository):
--   mm/      physical frames (pmm), page tables (vmm), memory areas (vma), the kernel heap (heap)
--   fs/      files (vfs) over ramfs, pipes and FAT; FAT reads and writes sectors through the buffer
--            cache (bcache), and that through the ATA driver of drivers/
--   net/     ethernet, arp, ipv4, icmp, udp, tcp and dns over packet buffers (netbuf)
--   task/    tasks, the scheduler and signals; cpu/ interrupts and the system calls
--   kernel/, shell/, gui/, user/   start-up, environment, command line, windows, user programs
--
-- Base.antt and Base/ hold what the parts share: lists as C arrays (get_or, set, take, drop), the
-- search of a table (find_index, the first slot that passes a test) and byte rings (queue).
--
-- Fs/Bcache.antt models fs/bcache.c with one definition for each function, under its name. A
-- pointer into `cache[]` is the index of its slot; `Option` is a pointer that may be NULL. The ATA
-- driver is the record `Disk`: the two transfers for one sector, what the disk holds, and that a
-- transfer without an error did what it was asked and touched no other sector. Content.antt says
-- what a client sees in a sector (the cached bytes, else the disk's), Evict.antt what a coherent
-- cache is, Read.antt, Write.antt and Sync.antt follow the operations, Lru.antt the choice of the
-- victim, History.antt sequences of calls.
--
-- Net/Tcp.antt models net/tcp.h and the helpers of net/tcp.c; Rx.antt and Handler.antt are
-- `tcp_rx` split by state, Timer.antt is `tcp_timer`, `tcp_close` and `tcp_listen`. The table
-- `conns` is a list. `uint32_t` and `uint16_t` are numbers with `% 2 ^ 32` and `% 2 ^ 16` written
-- out; `seq_lt` is the sign bit of the difference. A `World` passes on the tick count, the
-- outcomes of the calls of `netbuf_alloc` to come, and the segments sent. The waiting loop of
-- `tcp_close` is one look at a time (`close_poll`), since interrupts run between the looks.
-- Buffer.antt is about the receive ring, Deliver.antt about the bytes that a segment adds,
-- Edges.antt about the state machine, Demux.antt about the slots that a segment can change,
-- Fin.antt about an early FIN, Timer/Retries.antt about retransmission, Timer/Leak.antt about
-- connections that were reset. Stream.antt models `tcp_send` and `tcp_recv` from one wait for an
-- interrupt to the next: `send_loop` runs on fuel, for which one round more than there are bytes
-- is enough. Stream/Window.antt, Send.antt and Recv.antt are about the bytes under way and
-- received. Open.antt models `tcp_connect` and `tcp_accept` from one wait to the next, and
-- `tcp_checksum`; the segments of the other files stand without their checksum.
--
-- Mm/Vma.antt models the areas of a task in mm/vma.c, and of SYS_MMAP in cpu/syscall.c the part
-- that chooses and adds an area. The loop of `vma_find_free` runs on fuel, `rounds`: every round
-- moves on by a page at least, and the region has two pages fewer. FirstFit.antt is about that
-- search, Areas.antt about areas that are apart, Mmap.antt about SYS_MMAP, Remove.antt about
-- `vma_remove`.
--
-- Mm/Pmm.antt models the bitmap of mm/pmm.c; `bit`, `with_bit` and `without_bit` are the C
-- expressions on one byte. Bits.antt is about them, Frames.antt about the pages as a set with a
-- counter and about `pmm_alloc_page`, Release.antt about the other operations and sequences.
--
-- Kernel/Env.antt models the variables of kernel/env.c as a table of strings, where a string is
-- the list of its characters. Lookup.antt is about `env_get` on a table without double keys,
-- Update.antt about a changed slot, Set.antt about `env_set` and `env_unset`, Iterate.antt about
-- the iteration.
--
-- Fs/Pipe.antt models fs/pipe.c with the open files of fs/vfs.c that pipes use. A read or a write is
-- modelled from one wait to the next, and says how it goes on and whether it wakes another task.
-- Buffer.antt is about the ring, Fifo.antt about steps of readers and writers in any order.
--
-- Fs/Ramfs.antt and Ramfs/Calls.antt model fs/ramfs.c. The table of inodes is a list, and the
-- memory of an inode a list of bytes or of entries. The walk along a path runs on fuel, for which
-- the length of the path is enough, since a round takes a character at least. `split_path` copies
-- into arrays of its callers without a look at their lengths; a call on a path that is too long
-- for them has the outcome `overrun`, and the model says nothing of what comes after. Path.antt and
-- Split.antt are about paths and their parents, Entries.antt about the entries of a directory,
-- Tree.antt says what the operations keep, Outcome.antt what a creation may do, and Grow.antt,
-- Added.antt, Create.antt and Made.antt follow the creation of a file or directory, Unlink.antt,
-- Gone.antt and Removed.antt the removal of a file, Change.antt the paths after each.
--
-- Fs/Vfs.antt models fs/vfs.c on it: Vfs/Names.antt has the calls that take a path and those that
-- open, share and close, Vfs/Data.antt those on an open file. The FAT driver is the record `Fat` of
-- the calls that vfs.c makes of it. Content.antt is about the bytes of a file, Write.antt and
-- ReadBack.antt about writes and reads. What `kmalloc` gives is an argument of the calls.
--
-- Mm/Heap.antt models mm/heap.c on the headers in memory: `mem` gives the `struct heap_block` at an
-- address, and each write of the code to a header is a `write_header`. The loop of `kmalloc` runs
-- on fuel, for which one round more than there are blocks is enough. Chain.antt is about the
-- doubly linked list as a list of blocks, Links.antt about the writes, Alloc.antt, FirstFit.antt
-- and Kmalloc.antt about the first fit, Free.antt, Release.antt and Kfree.antt about the release,
-- History.antt about sequences of calls.
--
-- Net/Netbuf.antt models the packet buffers of net/netbuf.c, `net_checksum` of net/net.c and the
-- byte orders of net/net.h; what `netbuf_alloc` returns is an argument of its callers. On it stand
-- Net/Arp.antt (net/arp.c, `eth_tx` of net/ethernet.c), Net/Ipv4.antt (net/ipv4.c, `eth_rx`),
-- Net/Icmp.antt (net/icmp.c) and Net/Udp.antt (net/udp.c). A frame for the card is the list of its
-- bytes; `ipv4_rx` results in the handler that the packet goes to, with the packet. Waits of
-- `icmp_ping` are modelled one look at a time, `udp_recvfrom` after its wait.
--
-- Net/Dns.antt models net/dns.c but for the waits of `dns_resolve`. The loops of `dns_encode_name`
-- and `dns_skip_name` run on fuel: each round takes a character, or a byte of the datagram, at
-- least. Names.antt and Spelling.antt are about names in wire format, Reply.antt about replies,
-- Cached.antt about the cache.
--
-- Task.antt models the task pool, the circular list and the waiting of task/task.c, Task/Signal.antt
-- task/signal.c, and Task/Choice.antt `schedule_from_irq` of task/sched.c. The circular list is the
-- list of the tasks from the current one's `next` on. Waiting.antt and Turn.antt are about the turn
-- of a ready task, Return.antt about signal handlers, Killed.antt about a task killed as it is chosen.
-- Task/Files.antt has the descriptors in `task_fork` and `task_close_fds`; Files/Shared.antt counts
-- the references of the open files of fs/vfs.c through both.
--
-- The other loops over a table or a buffer are structural recursion on the list or on the number
-- of rounds left.
--
-- Not modelled: FAT, shared memory, page tables, the start of pmm, the creation and the end of
-- tasks, and whatever is port I/O, interrupts, assembly, drawing or terminal output.
pub mod Base
pub mod Fs
pub mod Kernel
pub mod Mm
pub mod Net
pub mod Task
