-- ===== src/Fat/Directory/Numbers.antt =====
-- The cluster number of a directory entry in kernel/arch/i386/FAT.c, as it is stored and read back.
use potato_os.Base.{
  ℕ, ◌+◌, ◌*◌, ◌/◌, ◌%◌, ◌^◌, ◌<◌, ◌≡◌, inl, ◌∙◌, Mem, u16, u32, bit_and, ◌>>>◌, arith,
}
use potato_os.Base.Bits.{bit_or_fields, bit_or_comm, bit_and_mask}
use potato_os.Fat.{load16, store16}
use potato_os.Fat.Loads.{load16-store16_self, load16-store16_other}
use potato_os.Fat.Directory.{get_cluster_from_entry, set_cluster}

-- The cluster number of an entry on FAT32 loses its bits 4 to 15: GET_ENTRY_LOW_BITS keeps four bits
-- where the entry has room for sixteen.
pub get_cluster_from_entry-set_cluster :
    (x : ℕ) (file : Mem)
    → x < 2 ^ 28
    → get_cluster_from_entry 32 (set_cluster 32 x file) ≡ x / 2 ^ 16 * 2 ^ 16 + x % 2 ^ 4
unfolding get_cluster_from_entry set_cluster
get_cluster_from_entry-set_cluster x file small =
    let low : u16 (bit_and x 15) ≡ x % 16 = rw (bit_and_mask 4 x) (omega arith) in
    let high : u16 (x >>> 16) ≡ x / 2 ^ 16 = omega arith in
    let entry = store16 file 26 (u16 (bit_and x 15)) in
    let stored_low : load16 (store16 entry 20 (u16 (x >>> 16))) 26 ≡ x % 16 =
      load16-store16_other entry 20 26 (u16 (x >>> 16)) (inl (omega arith))
      ∙ load16-store16_self file 26 (u16 (bit_and x 15)) (omega arith)
      ∙ low in
    let stored_high : load16 (store16 entry 20 (u16 (x >>> 16))) 20 ≡ x / 2 ^ 16 =
      load16-store16_self entry 20 (u16 (x >>> 16)) (omega arith) ∙ high in
    let shifted : u32 (x / 2 ^ 16 * 2 ^ 16) ≡ x / 2 ^ 16 * 2 ^ 16 = omega arith in
    rw (stored_low, stored_high, shifted)
      (bit_or_comm (x % 16) (x / 2 ^ 16 * 2 ^ 16)
        ∙ bit_or_fields 16 (x / 2 ^ 16) (x % 16) (omega arith))
