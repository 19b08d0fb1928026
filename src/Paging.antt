-- ===== src/Paging.antt =====
-- setup_paging of kernel/arch/i386/tty.c. The messages and dots that it prints are left out.
pub mod Translate
mod Tests
use potato_os.Base.{ℕ, zero, suc, ◌+◌, ◌*◌, ◌/◌, ◌^◌, Mem, upd, u32, bit_or}
use potato_os.Graphics.{framebuffer_address, framebuffer_size}

abbrev pub page_size : ℕ
page_size = 4096

-- The two tables, as words by index, and the registers that name them.
pub record Paging : Type 0 where
  pub page_directory : Mem
  pub page_table : Mem
  pub cr3 : ℕ
  pub cr0 : ℕ

-- The first loop, with `left` rounds to go.
unfoldable pub fill_tables : (left i : ℕ) → Paging → Paging
fill_tables zero i p = p
fill_tables (suc left) i p = fill_tables left (suc i) (record p {
  page_directory = upd p.page_directory i 0x00000002;
  page_table = upd p.page_table i (bit_or (i * page_size) 3);
})

-- The loop that maps the framebuffer.
unfoldable pub map_framebuffer : (left i : ℕ) → Paging → Paging
map_framebuffer zero i p = p
map_framebuffer (suc left) i p = map_framebuffer left (suc i) (record p {
  page_table =
      upd p.page_table (framebuffer_address / page_size + i)
        (bit_or (framebuffer_address + i * page_size) 3);
})

unfoldable pub load_page_directory : (page_directory : ℕ) → Paging → Paging
load_page_directory page_directory p = record p { cr3 = page_directory }

unfoldable pub enable_paging : Paging → Paging
enable_paging p = record p { cr0 = bit_or p.cr0 0x80000000 }

-- The tables stand at `directory_at` and `table_at`.
unfoldable pub setup_paging : (directory_at table_at : ℕ) → Paging → Paging
unfolding load_page_directory enable_paging
setup_paging directory_at table_at p =
    let mapped = map_framebuffer (framebuffer_size / page_size) 0 (fill_tables 1024 0 p) in
    let pointed = record mapped {
      page_directory = upd mapped.page_directory 0 (bit_or table_at 3);
    } in
    enable_paging (load_page_directory directory_at pointed)
