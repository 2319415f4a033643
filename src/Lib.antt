-- ===== src/Lib.antt =====
-- croOS: a verification library for the kernel's C sources. Paths are from the repository's root.
--
-- Parts and files
--   src/mm/pmm.c      Mm/Pmm.antt      the bitmap of physical pages
--   src/mm/kmalloc.c  Mm/Kmalloc.antt  the kernel heap, a list of blocks over the page allocator
--   src/mm/vmm.c      Mm/Vmm.antt      page directories and tables, in frames of the page allocator
--   src/sys/pipe.c    Sys/Pipe.antt    the table of pipes, each a ring buffer
--   src/kernel/process.c  Kernel/Process.antt  the table of processes and the scheduler
--   src/sys/signal.c  Sys/Signal.antt  pending and masked signals, and their delivery
--   src/libc/string.c Libc/Strings.antt  strings and memory blocks
--   src/fs/vfs.c      Fs/Vfs.antt      mounts, descriptors and routing to a file system
--   src/fs/ramdisk.c  Fs/Ramdisk.antt  files in the kernel heap
--   src/drivers/keyboard.c  Drivers/Keyboard.antt  scan codes and the ring of characters
--   src/libc/stdlib.c Libc/Search.antt   binary search
--   src/libc/stdlib.c Libc/Sort.antt     sorting
--   src/drivers/vga.c Drivers/Vga.antt  the text screen
--   src/fs/fat16.c    Fs/Fat16.antt    a FAT16 disk, its cluster chains and directories
--   src/libc/string.c, src/libc/stdlib.c  Libc/Numbers.antt  numbers to text and back, formatted text
--   src/net/net.c     Net.antt         the network stack: ARP, ICMP, TCP, UDP and sockets
--   src/apps/text_editor.c  Apps/TextEditor.antt  the text of the editor
--   src/sys/elf.c     Sys/Elf.antt     the ELF loader, over the page tables
--   src/libc/math.c   Libc/Math.antt   arithmetic on int, hashes and checksums
--   src/drivers/mouse.c   Drivers/Mouse.antt   packets of a mouse, its position and cursor
--
-- Base.antt and its children hold what the parts share: Boolean tests on the natural numbers, lists
-- with indices, integers, the bits of a word, and circular arrays.
--
-- A file named for a component has its state and its operations, by the names of the C functions;
-- its children have the theorems, each named for what it proves, and a module Tests with runs of
-- the definitions and the theorems at concrete inputs. The heap calls the page allocator for its
-- pages, and the page tables take their frames from it: both hold its state in theirs.
--
-- Numbers of the C types are natural numbers with their wrap-around written out, on 32 bits
-- (the kernel is built for i386); int is the type of integers of Base/Int.antt. A loop is a
-- recursion on the number of rounds left or on the list that it walks. Where C keeps a pointer,
-- the model keeps the address or the index.
--
-- Not modelled: assembly and boot code; the registers of devices, and what they answer; the frame
-- buffer, the compositor and what the applications draw; system calls, the proc file system, the
-- clients of the network (DHCP, DNS, HTTP), floating point, and the programs in .cro. Of these the
-- parts above call the ATA driver and the network card, which are parameters; messages that the FAT16
-- and ELF code prints, and page faults, are left out.
pub mod Apps
pub mod Base
pub mod Drivers
pub mod Fs
pub mod Kernel
pub mod Libc
pub mod Mm
pub mod Net
pub mod Sys
