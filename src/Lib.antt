-- ===== src/Lib.antt =====
-- A verification library of PotatoOS.
--
-- The kernel is three C files under kernel/arch/i386 and a small libc:
--   tty.c     the text console, the string functions, and the rest of the kernel's main file;
--   FAT.c     a FAT driver over a disk that is read and written through ports;
--   lib_c.c   case conversion and the serial console;
--   libc/     memory and string functions, and printf.
--
-- Base holds what the modules share: tests on native numbers, casts to fixed widths, bytes at
-- addresses, and the laws of `|` and `&`. A C `int` is kept as its 32-bit pattern, so that -1 is
-- 0xffffffff. Names are the source's in lower case with underscores (FATRead is fat_read).
--
--   Memory         libc/string: memcpy, memmove, memset, memcmp on one memory.
--   Strings        strlen, strcpy, strcmp, strncpy, strncmp, strchr and strtok of tty.c; strlen and
--                  strncmp of libc. Their loops take fuel: the length of the string and one is
--                  enough, and strtok needs that of the string and of the delimiters.
--   Vga, Terminal  vga.h and the console of tty.c: its static variables, video memory by address,
--                  and the port writes of the cursor. The delay loops change nothing and are left
--                  out. The display controller is a parameter, Terminal.Cursor.Controller.
--   Drive          what int13h_read_o and int13h_write_o promise the FAT code, as a record of
--                  operations and laws; Drive.Ram is a drive in memory that meets it.
--   Fat            FAT.c: Fat.Init is FATInitialize; Fat.Table is FATRead, FATWrite,
--                  allocateFreeFAT, clusterRead and clusterWrite over a Drive; Fat.Names is ChkSum
--                  and the conversions of 8.3 names; Fat.Directory is directorySearch and
--                  directoryAdd, Fat.Directory.Listing directoryList, with fuel for each cluster
--                  that they read: the length of the chain is enough. Fat.Files is getFile and
--                  putFile, with fuel for the bytes of a path and the clusters of a file. A call
--                  that never returns is `none`: a poll without end, a cyclic chain or a division
--                  by zero; so is one that
--                  overruns a local array. Diagnostic output is left out, and the listing is the
--                  texts handed to d_printss.
--   Ata            int13h_read_o and int13h_write_o of FAT.c over the ports of a controller, a
--                  parameter. The polls of a write take fuel; the read has its own limit of 100.
--                  Ata.Device is the protocol that a disk follows. Delays, and the texts that the
--                  polls of a write print, are left out. Ata.Partition is the Drive that this
--                  makes, and Ata.Table runs the FAT code over it.
--   Clock          read_rtc of tty.c over the ports of the CMOS. Its two loops take fuel; when the
--                  clock stands still one round of each is enough.
--   Network        htonl, htons, checksum, network_send and network_receive of tty.c; the carries of
--                  a checksum take fuel, of which 3 is enough. Network.Ping is send_ping and
--                  receive_ping. The dots that are printed are left out.
--   Stdio          printf, putchar and puts of libc/stdio on the console. A text is the list of its
--                  bytes; the loop takes the length of the format and one as fuel.
--   Shell          The keyboard and the recovery shell of tty.c: Shell.Keyboard is read_keyboard,
--                  Shell.Handler handle_keyboard_input and shell, Shell.Commands its commands.
--                  Texts that the code names by a pointer, and the line buffer, are bytes of one
--                  memory, whose addresses Shell.Layout gives; loops over them take fuel. Calls
--                  that never return (panic, reboot, shutdown, the colour test) end the handler with
--                  an outcome that names them.
--   Serial         lib_c.c's serial console over the ports of a UART; each poll takes fuel. Serial.Wire
--                  is what a UART promises.
--   Graphics       The drawing of tty.c into the framebuffer, with its font.
--   Paging         setup_paging of tty.c: the two tables and the control registers.
--   Mounted        The FAT32 experiment of tty.c over ports of a disk: Mounted is its blocks,
--                  clusters, table and mount_drive, Mounted.Files write_file and read_file. The
--                  drives are bytes of one memory, as are local arrays, whose addresses are
--                  given; a poll and a loop over a text take fuel.
--   Boot           panic and reboot of tty.c and their tasks, over the console, the shell and ports;
--                  Boot.Setup is setup, Boot.Power shutdown, Boot.Start kernel_main.
--                  Literals that task keeps have addresses, which are given; a poll of the
--                  keyboard, a text and the rounds of the shell take fuel.
--
-- Not modelled: the headers under libc/include (another libc's), the assembly, the UART of another
-- machine, abort, and setup_framebuffer's loop. Delays change nothing and are left out. Of tty.c
-- read_root_directory, which stores an entry that it has not set, is left out.
pub mod Ata
pub mod Boot
pub mod Base
pub mod Memory
pub mod Mounted
pub mod Graphics
pub mod Paging
pub mod Serial
pub mod Shell
pub mod Stdio
pub mod Strings
pub mod Vga
pub mod Terminal
pub mod Clock
pub mod Network
pub mod Drive
pub mod Fat
