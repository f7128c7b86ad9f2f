-- ===== src/Paging.antt =====
-- student-distrib/paging.c: the page directory and the two page tables, and the control registers. The
-- arrays are functions from an index, and the linker's addresses of them are parameters. `printf`
-- of the last line is left out.
pub mod Tables
use linux_based_os.Prelude.{ℕ, ◌+◌, ◌*◌, store, for_range, bit_or}

abbrev pub video_address : ℕ
video_address = 0xB8000

abbrev pub kernel_address : ℕ
kernel_address = 0x400000

abbrev pub four_kb : ℕ
four_kb = 4096

abbrev pub one_kb : ℕ
one_kb = 1024

pub record Paging : Type 0 where
  pub page_dir : ℕ → ℕ
  pub page_table : ℕ → ℕ
  pub page_table_user_video : ℕ → ℕ
  pub cr0 : ℕ
  pub cr2 : ℕ
  pub cr3 : ℕ
  pub cr4 : ℕ
  pub page_fault_addr : ℕ

-- The body of the loop of `paging_exec`
unfoldable pub clear_entries : ℕ → Paging → Paging
clear_entries i p = record p {
  page_dir = store p.page_dir i 0;
  page_table = store p.page_table i 0;
  page_table_user_video = store p.page_table_user_video i 0;
}

unfoldable pub paging_init : (directory : ℕ) → Paging → Paging
paging_init directory p = record p { cr3 = directory }

-- `pageTable[184]` to `pageTable[191]`
unfoldable pub map_video : (ℕ → ℕ) → ℕ → ℕ
map_video table =
    let t184 = store table 184 (bit_or video_address 3) in
    let t185 = store t184 185 (bit_or video_address 3) in
    let t186 = store t185 186 (bit_or (video_address + 2 * four_kb) 3) in
    let t187 = store t186 187 (bit_or (video_address + 3 * four_kb) 3) in
    let t188 = store t187 188 (bit_or (video_address + 4 * four_kb) 3) in
    let t189 = store t188 189 (bit_or (video_address + 5 * four_kb) 3) in
    let t190 = store t189 190 (bit_or (video_address + 6 * four_kb) 3) in
    store t190 191 (bit_or (video_address + 7 * four_kb) 3)

-- The assembly behind `paging_init`
unfoldable pub enable_paging : Paging → Paging
enable_paging p = record p {
  cr4 = bit_or p.cr4 0x10;
  cr0 = bit_or p.cr0 0x80000003;
  page_fault_addr = p.cr2;
}

module _ (page_dir_addr page_table_addr user_video_addr : ℕ) where
  -- `pageDir[0]`, `pageDir[1]` and `pageDir[128]`
  unfoldable pub map_directory : (ℕ → ℕ) → ℕ → ℕ
  map_directory directory =
      let d0 = store directory 0 (bit_or page_table_addr 0x3) in
      let d1 = store d0 1 (bit_or kernel_address 0x83) in store d1 128 (bit_or user_video_addr 0x7)

  unfoldable pub paging_exec : Paging → Paging
  unfolding clear_entries for_range map_video map_directory paging_init enable_paging
  paging_exec p =
      let cleared = for_range one_kb 0 clear_entries p in
      enable_paging (
        paging_init page_dir_addr (record cleared {
          page_dir = map_directory cleared.page_dir;
          page_table = map_video cleared.page_table;
        }))
