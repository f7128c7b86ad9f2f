-- ===== src/Filesystem/Program/Load.antt =====
-- What a successful load puts into memory, and the entry point that it returns.
use linux_based_os.Prelude.{
  ℤ, ℕ, ◌+◌, ◌-◌, ◌*◌, ◌/◌, ◌%◌, ◌^◌, ◌≤◌, ◌<◌, ◌≡◌, ap, ◌∙◌, arith, some, bit_or, for_range,
  bit_or_shift, pos, u32,
}
use linux_based_os.Strings.{Str}
use linux_based_os.Strings.Compare.{IsBytes}
use linux_based_os.Memory.{Memory}
use linux_based_os.Filesystem.Defs.{
  Image, Dentry, Inode, fill_dentry, get_filesize_by_name, read_data, reg_file,
}
use linux_based_os.Filesystem.Lookup.{SameName, HasBytes, read_dentry_by_name_found}
use linux_based_os.Filesystem.Data.{IsReadable, available, read_data_lem}
use linux_based_os.Filesystem.Data.Chunks.{filled, file_byte}
use linux_based_os.Filesystem.Program.{load_process, entry_point}

or_byte :
    (k acc x : ℕ)
    → acc < 2 ^ k
    → u32 (x * 2 ^ k) ≡ x * 2 ^ k
    → bit_or acc (u32 (x * 2 ^ k)) ≡ acc + x * 2 ^ k
or_byte k acc x h w = ap (bit_or acc) w ∙ bit_or_shift k acc x h

-- The little-endian word of four bytes.
entry_point_lem :
    (b : Memory) → IsBytes b → entry_point b ≡ b 24 + b 25 * 2 ^ 8 + b 26 * 2 ^ 16 + b 27 * 2 ^ 24
unfolding entry_point for_range
entry_point_lem b h =
    let h0 = h 24 in
    let h1 = h 25 in
    let h2 = h 26 in
    let h3 = h 27 in
    rw
      (
        or_byte 0 0 (b 24) (omega arith) (omega arith),
        or_byte 8 (0 + b 24 * 1) (b 25) (omega arith) (omega arith),
        or_byte 16 (0 + b 24 * 1 + b 25 * 256) (b 26) (omega arith) (omega arith),
        or_byte 24 (0 + b 24 * 1 + b 25 * 256 + b 26 * 65536) (b 27) (omega arith) (omega arith),
      )
      (omega arith)

-- `command` names entry `k`, a regular file of at least 40 bytes that can be read.
pub record IsProgram (im : Image) (command : Str) (k : ℕ) : Type 0 where
  pub bytes : HasBytes im
  pub name : IsBytes command
  pub data_bytes : IsBytes im.blocks
  pub listed : k ≤ im.num_dir
  pub same : SameName command (im.dentry k).filename
  pub first : (j : ℕ) → j < k → ¬ SameName command (im.dentry j).filename
  pub regular : (im.dentry k).filetype ≡ reg_file
  pub readable : IsReadable im (im.dentry k).idx_inode 0 (im.inode (im.dentry k).idx_inode).length
  pub header : 40 ≤ (im.inode (im.dentry k).idx_inode).length

module _ (im : Image) (command : Str) (k : ℕ) (p : IsProgram im command k) where
  abbrev pub node : Inode
  node = im.inode (im.dentry k).idx_inode

  filesize : (file : Dentry) → get_filesize_by_name im command file ≡ pos node.length
  unfolding get_filesize_by_name fill_dentry
  filesize file =
      rw (read_dentry_by_name_found im p.bytes command p.name file k p.listed p.same p.first)
        (ground (arith, p.regular, p.readable.long))

  pub IsReadable-prefix : (n : ℕ) → n ≤ node.length → IsReadable im (im.dentry k).idx_inode 0 n
  IsReadable-prefix n h = record {
    known = p.readable.known;
    within = p.readable.within;
    long = p.readable.long;
    no_wrap = omega (arith, p.readable.no_wrap);
    blocks = p.readable.blocks;
  }

  load_process_runs :
      (virtual_addr : ℕ) (process_dentry file : Dentry) (entry_buff m : Memory) {r1 r2 : ℤ}
      {b out : Memory}
      → read_data im (im.dentry k).idx_inode 0 0 40 entry_buff ≡ some (r1, b)
      → read_data im (im.dentry k).idx_inode 0 virtual_addr node.length m ≡ some (r2, out)
      → load_process im command virtual_addr process_dentry file entry_buff m
        ≡ some (entry_point b, out)
  unfolding load_process fill_dentry
  load_process_runs virtual_addr process_dentry file entry_buff m h1 h2 = rw (
    read_dentry_by_name_found im p.bytes command p.name process_dentry k p.listed p.same p.first,
    filesize file,
    h1,
    h2,
  )

  -- The first 40 bytes of the file are in the local buffer.
  header_byte :
      (entry_buff b : Memory)
      → ((a : ℕ) → b a ≡ filled im node 0 0 (available node 0 40) entry_buff a)
      → (j : ℕ) → j < 40
      → b j ≡ file_byte im node j
  header_byte entry_buff b at j h = at j ∙ ground (arith, p.header)

  buffer-IsBytes :
      (entry_buff b : Memory)
      → IsBytes entry_buff
      → ((a : ℕ) → b a ≡ filled im node 0 0 (available node 0 40) entry_buff a)
      → IsBytes b
  buffer-IsBytes entry_buff b hb at j = ground (
    arith,
    at j,
    hb j,
    p.data_bytes (node.dblocks ((0 + (j - 0)) / 4096) * 4096 + (0 + (j - 0)) % 4096),
  )

-- Loading a program, a readable regular file of at least 40 bytes whose entry is the first with the
-- name, copies the whole file to `virtual_addr`, writes nothing else, and returns the little-endian
-- 32-bit word at byte 24 of the file.
pub load_process_lem :
    (im : Image) (command : Str) (k : ℕ) (p : IsProgram im command k) (virtual_addr : ℕ)
    (process_dentry file : Dentry) (entry_buff m : Memory)
    → IsBytes entry_buff
    → let nd = im.inode (im.dentry k).idx_inode in
      let byte : ℕ → ℕ = file_byte im nd in
      (out : Memory) × (load_process im command virtual_addr process_dentry file entry_buff m
        ≡ some (byte 24 + byte 25 * 2 ^ 8 + byte 26 * 2 ^ 16 + byte 27 * 2 ^ 24, out))
      × ((a : ℕ) → out a ≡ filled im nd virtual_addr 0 nd.length m a)
unfolding load_process
load_process_lem im command k p virtual_addr process_dentry file entry_buff m hb =
    let nd = im.inode (im.dentry k).idx_inode in
    let (b, run1, at1) =
      read_data_lem im (im.dentry k).idx_inode 0 0 40 entry_buff
        (IsReadable-prefix im command k p 40 p.header) in
    let (out, run2, at2) =
      read_data_lem im (im.dentry k).idx_inode 0 virtual_addr nd.length m p.readable in
    let byte = header_byte im command k p entry_buff b at1 in
    (
      out,
      load_process_runs im command k p virtual_addr process_dentry file entry_buff m run1 run2
          ∙ ap (λ (e : ℕ). some (e, out))
              (entry_point_lem b (buffer-IsBytes im command k p entry_buff b hb at1)
                ∙ omega (
                  arith,
                  byte 24 (omega arith),
                  byte 25 (omega arith),
                  byte 26 (omega arith),
                  byte 27 (omega arith),
                )),
      λ a. at2 a ∙ ap (λ (n : ℕ). filled im nd virtual_addr 0 n m a) (omega arith),
    )
