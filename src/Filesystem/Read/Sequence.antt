-- ===== src/Filesystem/Read/Sequence.antt =====
-- Two reads through one descriptor, and the end of the file.
use linux_based_os.Prelude.{ℕ, ◌+◌, ◌^◌, ◌<◌, ◌≡◌, ◌∙◌, ap, arith, some, ℤ, pos}
use linux_based_os.Memory.{Memory}
use linux_based_os.Descriptor.{Descriptor}
use linux_based_os.Filesystem.Defs.{Image, Dentry}
use linux_based_os.Filesystem.Data.{IsReadable, available}
use linux_based_os.Filesystem.Data.Chunks.{filled, filled_split}
use linux_based_os.Filesystem.Read.{read_fs}
use linux_based_os.Filesystem.Read.File.{IsOpenFile, read_fs_lem}

module _ (im : Image) (d : Descriptor) (k : ℕ) (o : IsOpenFile im d.inode_indx k) where
  -- For an open regular file that is readable at the position behind the first `n1` bytes: a read
  -- of `n1` bytes to `buf` and one of `n2` to the place behind them, both below 2 ^ 16, leave in
  -- memory the bytes of one read of `n1 + n2`, and the file position behind them.
  pub read_fs_consecutive :
      (fuel buf n1 n2 : ℕ) (m : Memory) (file dir_entry : Dentry) (garbage : ℤ)
      → k < fuel
      → n1 < 2 ^ 16
      → n2 < 2 ^ 16
      → IsReadable im d.inode_indx (d.file_position + n1) n2
      → let d' = record d { file_position = d.file_position + n1 } in
        let nd = im.inode d.inode_indx in
        (m1 m2 : Memory) × (read_fs fuel im d buf (pos n1) m file dir_entry garbage
          ≡ some (pos n1, d', m1))
        × (read_fs fuel im d' (buf + n1) (pos n2) m1 file dir_entry garbage
            ≡ some (
              pos (available nd (d.file_position + n1) n2),
              record d {
                file_position = d.file_position + n1 + available nd (d.file_position + n1) n2;
              },
              m2,
            ))
        × ((a : ℕ)
            → m2 a ≡ filled im nd buf d.file_position (available nd d.file_position (n1 + n2)) m a)
  read_fs_consecutive fuel buf n1 n2 m file dir_entry garbage h s1 s2 r =
      let nd = im.inode d.inode_indx in
      let c2 = available nd (d.file_position + n1) n2 in
      let all : available nd d.file_position n1 ≡ n1 = omega (arith, r.within) in
      let (m1, run1, at1) =
        read_fs_lem im d k o fuel buf n1 m file dir_entry garbage h first (omega arith) in
      let (m2, run2, at2) =
        read_fs_lem im (record d { file_position = d.file_position + n1 }) k o fuel (buf + n1) n2 m1
          file dir_entry garbage h r (omega arith) in
      (
        m1,
        m2,
        run1
            ∙ ap (λ (c : ℕ). some (pos c, record d { file_position = d.file_position + c }, m1))
                all,
        run2,
        λ a.
            at2 a
            ∙ filled_split im nd m m1 buf d.file_position n1 c2 a
                (at1 a ∙ ap (λ (c : ℕ). filled im nd buf d.file_position c m a) all)
            ∙ ap (λ (c : ℕ). filled im nd buf d.file_position c m a) (omega (arith, r.within)),
      )
    where
      first : IsReadable im d.inode_indx d.file_position n1
      first = record {
        known = r.known;
        within = omega (arith, r.within);
        long = r.long;
        no_wrap = omega (arith, r.no_wrap);
        blocks = r.blocks;
      }
