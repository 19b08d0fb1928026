-- ===== src/Fat/Files/Short.antt =====
-- The loop of putFile of kernel/arch/i386/FAT.c on contents that are shorter than a cluster.
use potato_os.Base.{ℕ, ◌+◌, ◌-◌, Mem, ltb, leb, ◌&&◌, if◌then◌else◌}
use potato_os.Drive.{Drive}

-- The transfer area with `size` bytes of contents one cluster up.
abbrev placed : (contents : Mem) (size : ℕ) → Mem → Mem
placed contents size m i = if leb 512 i && ltb i (512 + size) then contents (i - 512) else m i
