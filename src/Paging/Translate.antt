-- ===== src/Paging/Translate.antt =====
-- What the tables of setup_paging of kernel/arch/i386/tty.c make of an address.
use potato_os.Base.{
  ℕ, zero, suc, ◌+◌, ◌*◌, ◌/◌, ◌%◌, ◌^◌, ◌<◌, ◌≡◌, refl, ap, sym, ◌∙◌, Option, none, some, Mem, upd,
  bit_or, ◌==◌, leb, ltb, ◌&&◌, if◌then◌else◌, arith,
}
use potato_os.Base.Bits.{bit_or_fields, bit_or_step, nothing_added}
use native.Mathlib.Nat.{pow-suc, div-div-eq-div-mul}
use potato_os.Graphics.{framebuffer_address}
use potato_os.Paging.{
  Paging, page_size, fill_tables, map_framebuffer, load_page_directory, enable_paging, setup_paging,
}

-- How the processor translates a 32-bit address, with the one table at `table_at`: not at all while
-- bit 31 of CR0 is 0; an entry whose lowest bit is 0 is not present, and an entry's upper twenty bits
-- are a frame.
abbrev pub translate : (table_at : ℕ) → Paging → (address : ℕ) → Option ℕ
translate table_at p address =
    let entry = p.page_directory (address / 2 ^ 22) in
    let page = p.page_table (address / page_size % 1024) in
    if p.cr0 / 2 ^ 31 % 2 == 0
    then some address
    else if entry % 2 == 0
    then none
    else if entry / page_size * page_size == table_at
    then (if page % 2 == 0 then none else some (page / page_size * page_size + address % page_size))
    else none

flagged : (i : ℕ) → bit_or (i * page_size) 3 ≡ i * page_size + 3
flagged i = bit_or_fields 12 i 3 (omega arith)

-- The tables that a loop leaves: entries from `i` on, `left` of them, are set.
abbrev set_from : (left i : ℕ) → (value : ℕ → ℕ) → Mem → Mem
set_from left i value m k = if leb i k && ltb k (i + left) then value k else m k

set_none : (i k : ℕ) (value : ℕ → ℕ) (m : Mem) → set_from 0 i value m k ≡ m k
set_none i k value m = ground arith

set_one :
    (left i v k : ℕ) (value : ℕ → ℕ) (m : Mem)
    → v ≡ value i
    → set_from left (suc i) value (upd m i v) k ≡ set_from (suc left) i value m k
unfolding upd
set_one left i v k value m e = ground arith

fill_tables-set :
    (left i : ℕ) (p : Paging) (k : ℕ)
    → ((fill_tables left i p).page_directory k ≡ set_from left i (λ _. 2) p.page_directory k)
      × ((fill_tables left i p).page_table k
          ≡ set_from left i (λ n. n * page_size + 3) p.page_table k)
unfolding fill_tables
fill_tables-set zero i p k = (
  sym (set_none i k (λ _. 2) p.page_directory),
  sym (set_none i k (λ n. n * page_size + 3) p.page_table),
)
fill_tables-set (suc left) i p k =
    let next = record p {
      page_directory = upd p.page_directory i 2;
      page_table = upd p.page_table i (bit_or (i * page_size) 3);
    } in
    let (d, t) = fill_tables-set left (suc i) next k in
    (
      d ∙ set_one left i 2 k (λ _. 2) p.page_directory refl,
      t
          ∙ set_one left i (bit_or (i * page_size) 3) k (λ n. n * page_size + 3) p.page_table
              (flagged i),
    )

map_framebuffer-set :
    (left i : ℕ) (p : Paging) (k : ℕ)
    → ((map_framebuffer left i p).page_directory k ≡ p.page_directory k)
      × ((map_framebuffer left i p).page_table k
          ≡ set_from left (160 + i) (λ n. n * page_size + 3) p.page_table k)
unfolding map_framebuffer
map_framebuffer-set zero i p k =
    (refl, sym (set_none (160 + i) k (λ n. n * page_size + 3) p.page_table))
map_framebuffer-set (suc left) i p k =
    let value = bit_or (framebuffer_address + i * page_size) 3 in
    let next = record p { page_table = upd p.page_table (160 + i) value } in
    let (d, t) = map_framebuffer-set left (suc i) next k in
    let at : framebuffer_address + i * page_size ≡ (160 + i) * page_size = omega arith in
    let succ : 160 + suc i ≡ suc (160 + i) = omega arith in
    (
      d,
      t
          ∙ ap (λ n. set_from left n (λ x. x * page_size + 3) next.page_table k) succ
          ∙ set_one left (160 + i) value k (λ n. n * page_size + 3) p.page_table
              (ap (λ x. bit_or x 3) at ∙ flagged (160 + i)),
    )

-- The tables after the call.
setup_paging-tables :
    (directory_at table_at : ℕ) (p : Paging) (k : ℕ)
    → k < 1024
    → ((setup_paging directory_at table_at p).page_directory k
        ≡ (if k == 0 then bit_or table_at 3 else 2))
      × ((setup_paging directory_at table_at p).page_table k ≡ k * page_size + 3)
unfolding setup_paging load_page_directory enable_paging upd
setup_paging-tables directory_at table_at p k h =
    let filled = fill_tables 1024 0 p in
    let (d, t) = fill_tables-set 1024 0 p k in
    let (d', t') = map_framebuffer-set 3 0 filled k in
    (ground (arith, d, d'), ground (arith, t, t'))

-- The loops leave CR0 as it was.
fill_tables-cr0 : (left i : ℕ) (p : Paging) → (fill_tables left i p).cr0 ≡ p.cr0
unfolding fill_tables
fill_tables-cr0 zero i p = refl
fill_tables-cr0 (suc left) i p = fill_tables-cr0 left (suc i) _

map_framebuffer-cr0 : (left i : ℕ) (p : Paging) → (map_framebuffer left i p).cr0 ≡ p.cr0
unfolding map_framebuffer
map_framebuffer-cr0 zero i p = refl
map_framebuffer-cr0 (suc left) i p = map_framebuffer-cr0 left (suc i) _

halved_twice : (a r p : ℕ) → r < 2 → (a * 2 + r) / (2 * p) ≡ a / p
halved_twice a r p h =
    let first : (a * 2 + r) / 2 ≡ a = omega (arith, h) in
    sym (div-div-eq-div-mul (a * 2 + r) 2 p) ∙ ap (λ x. x / p) first

top_bit : (width x : ℕ) → x < 2 ^ suc width → bit_or x (2 ^ width) / 2 ^ width % 2 ≡ 1
top_bit zero x h = omega (arith, bit_or_step x 1, nothing_added 1 (x / 2) (omega arith))
top_bit (suc width) x h =
    let p = 2 ^ width in
    let even : 2 ^ suc width % 2 ≡ 0 = omega (arith, pow-suc 2 width) in
    let half : 2 ^ suc width / 2 ≡ p = omega (arith, pow-suc 2 width) in
    let double : 2 ^ suc width ≡ 2 * p = omega (arith, pow-suc 2 width) in
    let rest : bit_or (x / 2) p / p % 2 ≡ 1 =
      top_bit width (x / 2) (omega (arith, pow-suc 2 (suc width))) in
    let step : bit_or x (2 ^ suc width) ≡ bit_or (x / 2) p * 2 + x % 2 =
      omega (arith, bit_or_step x (2 ^ suc width), even, ap (bit_or (x / 2)) half) in
    ap (λ v. v / 2 ^ suc width % 2) step
    ∙ ap (λ q. (bit_or (x / 2) p * 2 + x % 2) / q % 2) double
    ∙ ap (λ v. v % 2) (halved_twice (bit_or (x / 2) p) (x % 2) p (omega arith))
    ∙ rest

paging_on :
    (directory_at table_at : ℕ) (p : Paging)
    → p.cr0 < 2 ^ 32
    → (setup_paging directory_at table_at p).cr0 / 2 ^ 31 % 2 ≡ 1
unfolding setup_paging load_page_directory enable_paging
paging_on directory_at table_at p small =
    let filled = fill_tables 1024 0 p in
    rw (map_framebuffer-cr0 3 0 filled ∙ fill_tables-cr0 1024 0 p) (top_bit 31 p.cr0 small)

-- After setup_paging, with the table at a page boundary, paging is on, CR3 names the directory, every address of the first
-- 4 MiB, the framebuffer among them, is translated to itself; no address above is mapped.
pub setup_paging-identity :
    (directory_at table_at : ℕ) (p : Paging) (address : ℕ)
    → table_at % page_size ≡ 0
    → address < 2 ^ 32
    → p.cr0 < 2 ^ 32
    → (translate table_at (setup_paging directory_at table_at p) address
        ≡ (if ltb address (2 ^ 22) then some address else none))
      × ((setup_paging directory_at table_at p).cr3 ≡ directory_at)
setup_paging-identity directory_at table_at p address aligned h small =
    let on : (setup_paging directory_at table_at p).cr0 / 2 ^ 31 % 2 ≡ 1 =
      paging_on directory_at table_at p small in
    let (d, _) = setup_paging-tables directory_at table_at p (address / 2 ^ 22) (omega arith) in
    let (_, t) =
      setup_paging-tables directory_at table_at p (address / page_size % 1024) (omega arith) in
    let whole : table_at ≡ table_at / page_size * page_size = omega arith in
    let here : bit_or table_at 3 ≡ table_at + 3 =
      ap (λ x. bit_or x 3) whole ∙ flagged (table_at / page_size) ∙ ap (λ x. x + 3) (sym whole) in
    (ground (arith, d, t, here, on), unfold setup_paging load_page_directory enable_paging in refl)
