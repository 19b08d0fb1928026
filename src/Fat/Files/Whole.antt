-- ===== src/Fat/Files/Whole.antt =====
-- getFile of kernel/arch/i386/FAT.c on a path that resolves.
use potato_os.Drive.{Drive}
