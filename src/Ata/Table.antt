-- ===== src/Ata/Table.antt =====
-- FATRead and FATWrite of kernel/arch/i386/FAT.c over its disk driver.
