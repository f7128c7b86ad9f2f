-- ===== src/Paging/Tables.antt =====
-- The tables that `paging_exec` leaves: which pages are present, which the user may reach, and where
-- the text screens are.
use linux_based_os.Prelude.{
  ◌^◌, refl, subst, bit_or_low, ℕ, ◌+◌, ◌*◌, ◌/◌, ◌%◌, ◌<◌, ◌≡◌, arith, for_range, for_range_inv,
  bit, bit_or, leb, ◌==◌, ◌&&◌, if◌then◌else◌,
}
use linux_based_os.Paging.{
  Paging, one_kb, clear_entries, paging_exec, map_video, map_directory, enable_paging, paging_init,
  video_address,
}

-- Every entry below `k` is zero.
record Cleared (k : ℕ) (p : Paging) : Type 0 where
  dir : (i : ℕ) → i < k → p.page_dir i ≡ 0
  table : (i : ℕ) → i < k → p.page_table i ≡ 0
  user : (i : ℕ) → i < k → p.page_table_user_video i ≡ 0

Cleared-clear_entries : (k : ℕ) (p : Paging) → Cleared k p → Cleared (k + 1) (clear_entries k p)
unfolding clear_entries
Cleared-clear_entries k p c = record {
  dir = λ i lt. ground (arith, c.dir i);
  table = λ i lt. ground (arith, c.table i);
  user = λ i lt. ground (arith, c.user i);
}

all-Cleared : (p : Paging) → Cleared one_kb (for_range one_kb 0 clear_entries p)
all-Cleared p =
    for_range_inv Cleared clear_entries Cleared-clear_entries one_kb 0 one_kb p (omega arith)
      (record {
        dir = λ i lt. absurd (omega arith);
        table = λ i lt. absurd (omega arith);
        user = λ i lt. absurd (omega arith);
      })

-- The frame of a page of the first four megabytes: the second page of the first screen is not its
-- own.
abbrev pub frame : ℕ → ℕ
frame page = if page == 185 then 184 else page

abbrev pub video_page : ℕ → ℕ
video_page i = if leb 184 i && leb i 191 then frame i * 4096 + 3 else 0

map_video_lem : (table : ℕ → ℕ) (i : ℕ) → table i ≡ 0 → map_video table i ≡ video_page i
unfolding map_video
map_video_lem table i z = ground arith

-- After `paging_exec` the table of the first four megabytes maps the eight pages from 184 on, each to
-- the frame of its own number but page 185, which shows frame 184; it maps no other page.
pub paging_exec-table :
    (page_dir_addr page_table_addr user_video_addr i : ℕ) (p : Paging)
    → i < one_kb
    → (paging_exec page_dir_addr page_table_addr user_video_addr p).page_table i ≡ video_page i
unfolding paging_exec enable_paging paging_init
paging_exec-table page_dir_addr page_table_addr user_video_addr i p h =
    map_video_lem (for_range one_kb 0 clear_entries p).page_table i ((all-Cleared p).table i h)

-- A text screen is mapped where it is: the entry that `paging_exec` leaves for any byte of the
-- screen of one of the three terminals has the frame of its address, and is present and not the
-- user's.
paging_exec-video :
    (page_dir_addr page_table_addr user_video_addr terminal offset : ℕ) (p : Paging)
    → terminal < 3
    → offset < 4000
    → let address = video_address + 4096 * 2 * terminal + offset in
      let entry =
        (paging_exec page_dir_addr page_table_addr user_video_addr p).page_table (address / 4096) in
      (entry / 4096 * 4096 + address % 4096 ≡ address) × (bit entry 0 ≡ 1) × (bit entry 2 ≡ 0)
paging_exec-video page_dir_addr page_table_addr user_video_addr terminal offset p t o =
    let page : (video_address + 4096 * 2 * terminal + offset) / 4096 ≡ 184 + 2 * terminal =
      omega arith in
    let at =
      paging_exec-table page_dir_addr page_table_addr user_video_addr (184 + 2 * terminal) p
        (omega arith) in
    rw (page, at) (ground arith)

-- The address of a page, a word, as the linker aligns the tables.
abbrev pub IsAligned : ℕ → Type 0
IsAligned addr = (addr % 4096 ≡ 0) × (addr < 2 ^ 32)

-- The flags of an entry stand in the low bits.
or_flags : (addr flags : ℕ) → IsAligned addr → flags < 4096 → bit_or addr flags ≡ addr + flags
or_flags addr flags (a, b) h =
    let q : addr / 4096 * 2 ^ 12 ≡ addr = omega (arith, a) in
    subst (λ n. bit_or n flags ≡ n + flags) q
      (bit_or_low 12 flags (addr / 4096) h (omega (arith, b)))

map_directory_lem :
    (page_dir_addr page_table_addr user_video_addr : ℕ) (directory : ℕ → ℕ) (i : ℕ)
    → IsAligned page_table_addr
    → IsAligned user_video_addr
    → directory i ≡ 0
    → map_directory page_dir_addr page_table_addr user_video_addr directory i ≡ (
        if i == 0
        then page_table_addr + 0x3
        else if i == 1
        then 4 * 2 ^ 20 + 0x83
        else if i == 128
        then user_video_addr + 0x7
        else 0)
unfolding map_directory
map_directory_lem page_dir_addr page_table_addr user_video_addr directory i a b z = ground (
  arith,
  or_flags page_table_addr 0x3 a (omega arith),
  or_flags user_video_addr 0x7 b (omega arith),
)

-- With the tables at page boundaries below 2 ^ 32, `paging_exec` leaves a directory of three
-- entries: the table of the first four megabytes, present and writable; the large page of the
-- kernel at four megabytes; and the table of the user's video page, which alone the user may pass.
-- The first table maps the eight pages from 184 on, page 185 to frame 184 and each other to its
-- own, and nothing else; the user's table is empty; and the directory's address is in cr3.
pub paging_exec-directory :
    (page_dir_addr page_table_addr user_video_addr i : ℕ) (p : Paging)
    → IsAligned page_table_addr
    → IsAligned user_video_addr
    → i < one_kb
    → let r = paging_exec page_dir_addr page_table_addr user_video_addr p in
      (r.page_dir i ≡ (
        if i == 0
        then page_table_addr + 0x3
        else if i == 1
        then 4 * 2 ^ 20 + 0x83
        else if i == 128
        then user_video_addr + 0x7
        else 0))
      × (r.page_table i ≡ video_page i)
      × (r.page_table_user_video i ≡ 0)
      × (r.cr3 ≡ page_dir_addr)
unfolding paging_exec enable_paging paging_init
paging_exec-directory page_dir_addr page_table_addr user_video_addr i p a b h = (
  map_directory_lem page_dir_addr page_table_addr user_video_addr
      (for_range one_kb 0 clear_entries p).page_dir i a b ((all-Cleared p).dir i h),
  map_video_lem (for_range one_kb 0 clear_entries p).page_table i ((all-Cleared p).table i h),
  (all-Cleared p).user i h,
  refl,
)
