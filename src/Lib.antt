-- ===== src/Lib.antt =====
-- The kernel of an x86 operating system: its memory management, its scheduler, its files, its
-- network and its C library.
--
-- How the parts interact. The page allocator (kernel/modules/bitmap.c) hands out the 4 KiB frames
-- of the physical memory. Paging (kernel/cpu/mmu.c) takes frames from it for page tables and for
-- the memory that it maps, and reads and writes the memory of other address spaces. The scheduler
-- (kernel/modules/process.c) switches between processes, each with a directory of its own, and
-- keeps those that may run in a queue; semaphores and tasks make processes wait. The virtual file
-- system (kernel/modules/vfs.c) walks along paths through the file systems that are mounted. The
-- network (kernel/modules/net) hands frames to the driver of a device and takes in those that
-- arrive. The C library of the kernel (kernel/libc) is used by all of them. Bits are numbered by
-- the macros of kernel/bits.h.
--
-- - Prelude: lists, tests on numbers, bits and words, and whole numbers, for all parts.
-- - Bits: the macros of kernel/bits.h and `switch_endian_16`, `_32`, `_64` of kernel/bits.c; Inet:
--   kernel/libc/arpa/inet.c. A word of w bits is a number below 2 ^ w, and results are reduced.
-- - Bitmap: kernel/modules/bitmap.c. The state is the list of the 32-bit words of the bitmap, the
--   start of the pages, the size of the memory and the lock. The loops with an early exit are
--   scans that return an option. The count of set bits that the processor offers is a parameter.
-- - Heap: kernel/modules/heap.c. The heap is the list of its blocks; a block has its header and
--   the bytes of its bitmap by their index. The loop of `heap_get_new_id` passes over two values
--   at most; the search goes up or wraps, which it does once, so twice the number of blocks and 3
--   rounds are enough.
-- - Mmu: kernel/cpu/mmu.c. The state has the tables as a function of the table's address and the
--   index, cr3 and the variables of the file, the memory as bytes, and the state of the allocator;
--   addresses are 32 bits wide and wrap. `Space` says when a directory is well formed.
-- - Net: kernel/modules/net/arp.c, ip.c and udp.c and kernel/drivers/ethernet.c. The state of a
--   machine is the addresses of its device, its ARP table and the frames that it has sent. The
--   table stands for the ten entries of the array; the guard of the code lets writes behind it
--   through, and what they change, which the layout of the memory decides, is a parameter. A frame
--   carries an ARP packet or an IPv4 header and bytes; UDP headers are written to and read from
--   bytes. What arrives during the waits of `arp_get_mac` is an argument, ARP packets only. The
--   listeners and TCP are parameters of `ipv4_receive_packet`. Carries are folded twice, which is
--   enough for 32 bits. `Dhcp` has what kernel/modules/net/dhcp.c does with a packet from a
--   server; an option takes two bytes at least, so that 157 rounds go past its 312 bytes.
-- - Vfs: kernel/modules/vfs.c. The state is the root mount and the mounts; a file system is its
--   root directory and its readdir, which are an argument for all the drivers in
--   kernel/drivers/fs. A path is cut into at most as many names as it has characters; the walk
--   through a directory takes fuel, and one round more than the directory has entries is enough. `Lookup` says what a path leads to.
-- - Mbr: kernel/drivers/mbr.c, on the bytes of the first sector.
-- - Linked: lists through `next` pointers, the loops over them, and when a pointer leads to a
--   list.
-- - Process: kernel/modules/process.c. The state is the variables of the file and the processes by
--   their addresses, with the paging and the tasks that the functions change too. `Switch` has the
--   scheduler, `Life` creation, destruction and waiting. The registers that an interrupt has saved
--   are an argument and a result. `process_create` takes the address that `calloc` gives.
-- - Task: kernel/modules/task.c, with the nodes that were given to `free`. Semaphore:
--   kernel/modules/semaphore.c, on the state of Process, for counts below 2 ^ 31.
-- - Fat: kernel/drivers/fs/fat.c; Fat/Dir has directories (Fat/Dir/Listing says what the root directory holds), Fat/Path the walk along a path and
--   Fat/Init `fat_init`. Ext2: kernel/drivers/fs/ext2.c; Ext2/Read has `ext2_read`, Ext2/Dir
--   directories and `ext2_init`. A driver is what its `read_sector` leaves in the buffer, as a
--   function from an index to a byte; Sectors has the copies that both share. A read of `count`
--   bytes takes at most `count` rounds; the loops over clusters and directories take fuel.
-- - Ctype: kernel/libc/ctype.c. Cstring: kernel/libc/string.c; a string is the list of its bytes
--   before the NUL, a pointer into it an index, and the block copies work on the memory as bytes.
-- - Stdlib: kernel/libc/stdlib.c, numbers as text, `qsort` (Stdlib/Sort) over the list of the
--   elements, with one round more than there are elements as fuel, and `bsearch`, whose array
--   stands as the results of the comparisons. 32 rounds write every number of 32 bits, and a
--   search takes at most one round more than the array has elements.
--
-- The search loop of `mmu_alloc_pages` is given as many rounds as there are pages, 2 ^ 20; it
-- would go round for ever after them, so the model returns no result there.
--
-- The loops over linked lists and over strings in the memory take fuel for the nodes and the bytes
-- they visit, and give no result when it runs out; fuel for the length of the queue or of the
-- string is enough.
--
-- Not modelled: port i/o, assembly, interrupts and the interleaving of processors; a spinlock is a
-- field that is set and cleared. Printing for debugging is left out everywhere. The drivers of
-- disks, network cards, screens and keyboards (kernel/drivers, kernel/modules/timer.c and cmos.c)
-- talk to hardware and have no model, nor has the set-up of the processor (kernel/cpu) but for
-- paging, the system calls over it, the loader, the boot loader and the user programs. TCP, DNS and
-- HTTP, ISO 9660 and formatted output are code of their own that no part here rests on.
pub mod Prelude
pub mod Bits
pub mod Inet
pub mod Bitmap
pub mod Mbr
pub mod Ext2
pub mod Fat
pub mod Sectors
pub mod Mmu
pub mod Net
pub mod Heap
pub mod Linked
pub mod Task
pub mod Vfs
pub mod Process
pub mod Semaphore
pub mod Ctype
pub mod Cstring
pub mod Stdlib
