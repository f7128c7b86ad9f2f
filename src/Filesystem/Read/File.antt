-- ===== src/Filesystem/Read/File.antt =====
-- `read_fs` on a regular file: consecutive reads return consecutive pieces of the file.
use linux_based_os.Prelude.{
  ℕ, zero, suc, ◌+◌, ◌^◌, ◌<◌, ◌≡◌, ◌≢◌, ◌∙◌, refl, ap, arith, some, none, Option, ℤ, pos, word32,
  u16, u32, leb, ==_false, leb-false, Bool-cases, ◌⊎◌, inl, inr,
}
use linux_based_os.Memory.{Memory}
use linux_based_os.Descriptor.{Descriptor}
use linux_based_os.Filesystem.Defs.{
  Image, Dentry, fill_dentry, read_dentry_by_index, read_data, reg_file,
}
use linux_based_os.Filesystem.Data.{IsReadable, available, read_data_lem}
use linux_based_os.Filesystem.Data.Chunks.{filled}
use linux_based_os.Filesystem.Read.{search_inode, read_fs}

fill_inode : (o d : Dentry) → (fill_dentry o d).idx_inode ≡ d.idx_inode
unfolding fill_dentry
fill_inode o d = refl

fill_type : (o d : Dentry) → (fill_dentry o d).filetype ≡ d.filetype
unfolding fill_dentry
fill_type o d = refl

by_index_ok :
    (im : Image) (i : ℕ) (file : Dentry)
    → i < im.num_dir
    → (read_dentry_by_index im i file).1 ≡ fill_dentry file (im.dentry i)
unfolding read_dentry_by_index
by_index_ok im i file h = rw (leb-false _ _ h)

by_index_keeps :
    (im : Image) (i : ℕ) (file : Dentry)
    → ((read_dentry_by_index im i file).1.idx_inode ≡ file.idx_inode)
      ⊎ ((i < im.num_dir)
          × ((read_dentry_by_index im i file).1.idx_inode ≡ (im.dentry i).idx_inode))
unfolding read_dentry_by_index fill_dentry
by_index_keeps im i file = elim (Bool-cases (leb im.num_dir i)) [
  | inl e ↦ inl (rw e)
  | inr e ↦ inr (ground arith, rw e)
]

module _ (im : Image) (idx : ℕ) where
  -- Entry `k` is the first with the inode.
  pub record IsFirst (k : ℕ) : Type 0 where
    pub listed : k < im.num_dir
    pub has : (im.dentry k).idx_inode ≡ idx
    pub before : (j : ℕ) → j < k → (im.dentry j).idx_inode ≢ idx

  search_found :
      (left i fuel k : ℕ) (file : Dentry)
      → IsFirst k
      → i + left ≡ k
      → left < fuel
      → (e : Dentry) × (search_inode im idx fuel i file ≡ some (k, e))
        × (e.filetype ≡ (im.dentry k).filetype)
  unfolding search_inode
  search_found left i zero k file h p q = absurd (omega arith)
  search_found zero i (suc fuel) k file h p q =
      let here : i ≡ k = omega arith in
      rw (here, by_index_ok im k file h.listed, ==_false im.num_dir 0 (omega (arith, h.listed)))
        (
          fill_dentry file (im.dentry k),
          ground (arith, fill_inode file (im.dentry k), h.has),
          fill_type file (im.dentry k),
        )
  search_found (suc left) i (suc fuel) k file h p q =
      rw
        (
          ==_false im.num_dir 0 (omega (arith, h.listed)),
          by_index_ok im i file (omega (arith, h.listed)),
          ==_false (fill_dentry file (im.dentry i)).idx_inode idx
              (rw (fill_inode file (im.dentry i)) (h.before i (omega arith))),
        )
        (search_found left (i + 1) fuel k (fill_dentry file (im.dentry i)) h (omega arith)
          (omega arith))

  -- With an inode that no entry has, in a directory that is not empty, the search of `read_fs`
  -- never ends, whatever the fuel.
  pub search_inode_diverges :
      (fuel i : ℕ) (file : Dentry)
      → im.num_dir ≢ 0
      → file.idx_inode ≢ idx
      → ((j : ℕ) → j < im.num_dir → (im.dentry j).idx_inode ≢ idx)
      → search_inode im idx fuel i file ≡ none
  unfolding search_inode
  search_inode_diverges zero i file h f n = refl
  search_inode_diverges (suc fuel) i file h f n =
      let entry = (read_dentry_by_index im i file).1 in
      let differs : entry.idx_inode ≢ idx = ground (arith, by_index_keeps im i file, n i) in
      rw (==_false im.num_dir 0 h, ==_false entry.idx_inode idx differs)
        (search_inode_diverges fuel (i + 1) entry h differs n)

-- What a read of `n` bytes through `d` does: it returns the count, moves the position by it, and
-- puts that piece of the file at `buf`.
abbrev pub Delivers :
    Image → Descriptor → ℕ → ℕ → Memory → Option (ℤ × Descriptor × Memory) → Type 0
Delivers im d buf count m r =
    (out : Memory) × (r
      ≡ some (pos count, record d { file_position = d.file_position + count }, out))
    × ((a : ℕ) → out a ≡ filled im (im.inode d.inode_indx) buf d.file_position count m a)

-- A regular file behind a descriptor, and the entry that the search finds for it.
pub record IsOpenFile (im : Image) (inode k : ℕ) : Type 0 where
  pub first : IsFirst im inode k
  pub regular : (im.dentry k).filetype ≡ reg_file

module _ (im : Image) (d : Descriptor) (k : ℕ) (o : IsOpenFile im d.inode_indx k) where
  read_fs_runs :
      (fuel buf n : ℕ) (m : Memory) (file dir_entry : Dentry) (garbage : ℤ) {r : ℤ} {out : Memory}
      → k < fuel
      → read_data im d.inode_indx d.file_position buf n m ≡ some (r, out)
      → read_fs fuel im d buf (pos n) m file dir_entry garbage
        ≡ some (r, record d { file_position = u32 (d.file_position + word32 r) }, out)
  unfolding read_fs
  read_fs_runs fuel buf n m file dir_entry garbage h run =
      let (e, found, type) = search_found im d.inode_indx k 0 fuel k file o.first (omega arith) h in
      rw (found, ==_false k im.num_dir (omega (arith, o.first.listed)), type, o.regular, run)

  -- For an open regular file, the first entry with its inode at index `k`, that is readable at the
  -- file position, and with fuel above `k`: `read_fs` of `n` bytes returns the number of bytes
  -- there are, at most `n` and below 2 ^ 16, moves the file position by it, puts these bytes at
  -- `buf` and changes no other memory.
  pub read_fs_lem :
      (fuel buf n : ℕ) (m : Memory) (file dir_entry : Dentry) (garbage : ℤ)
      → k < fuel
      → IsReadable im d.inode_indx d.file_position n
      → available (im.inode d.inode_indx) d.file_position n < 2 ^ 16
      → Delivers im d buf
          (available (im.inode d.inode_indx) d.file_position n)
          m
          (read_fs fuel im d buf (pos n) m file dir_entry garbage)
  read_fs_lem fuel buf n m file dir_entry garbage h r small =
      let count = available (im.inode d.inode_indx) d.file_position n in
      let (out, run, at) = read_data_lem im d.inode_indx d.file_position buf n m r in
      let whole : u16 count ≡ count = omega arith in
      let moved : u32 (d.file_position + count) ≡ d.file_position + count =
        omega (arith, r.within, r.long) in
      (
        out,
        read_fs_runs fuel buf n m file dir_entry garbage h
              (run ∙ ap (λ (c : ℕ). some (pos c, out)) whole)
            ∙ ap (λ (p : ℕ). some (pos count, record d { file_position = p }, out)) moved,
        at,
      )
