-- ===== src/Filesystem/Read/Directory.antt =====
-- `read_fs_dir`: one entry's name for each call, until there are no more.
use linux_based_os.Prelude.{
  ℕ, zero, suc, refl, ◌+◌, ◌-◌, ◌^◌, ◌≤◌, ◌<◌, ◌≡◌, ◌∙◌, arith, ℤ, pos, u32, leb, ltb, ◌&&◌,
  if◌then◌else◌, leb-false,
}
use linux_based_os.Strings.{Str, strncpy}
use linux_based_os.Strings.Copy.{nul_before, strncpy_lem}
use linux_based_os.Memory.{Memory}
use linux_based_os.Descriptor.{Descriptor}
use linux_based_os.Filesystem.Defs.{Image, Dentry, fill_dentry, read_dentry_by_index}
use linux_based_os.Filesystem.Read.{read_fs_dir, strncpy_to}

-- Character `j` of a name, 0 from its NUL on.
abbrev pub name_char : Str → ℕ → ℕ
name_char s j = if nul_before j s then 0 else s j

strncpy_to_lem :
    (m : Memory) (buf : ℕ) (src : Str) (n a : ℕ)
    → strncpy_to m buf src n a
      ≡ (if leb buf a && ltb a (buf + n) then name_char src (a - buf) else m a)
unfolding strncpy_to
strncpy_to_lem m buf src n a = ground (arith, strncpy_lem (λ j. m (buf + j)) src n (a - buf), there)
  where
    there : buf ≤ a → buf + (a - buf) ≡ a
    there h = omega arith

-- A copy of 31 characters has the NULs of the name.
nul_before-strncpy :
    (d src : Str) (j : ℕ) → j ≤ 31 → nul_before j (strncpy d src 31) ≡ nul_before j src
nul_before-strncpy d src zero h = refl
nul_before-strncpy d src (suc j) h =
    ground (arith, strncpy_lem d src 31 j, nul_before-strncpy d src j)

name_char-strncpy :
    (d src : Str) (j : ℕ) → j < 31 → name_char (strncpy d src 31) j ≡ name_char src j
name_char-strncpy d src j h = ground (arith, strncpy_lem d src 31 j, nul_before-strncpy d src j)

-- A directory read at a position inside the directory, of fewer than 32 bytes, returns `nbytes`,
-- moves on to the next entry and puts this entry's name, filled up with zeros, into the buffer.
pub read_fs_dir_entry :
    (im : Image) (d : Descriptor) (buf n : ℕ) (m : Memory) (file : Dentry)
    → d.file_position < im.num_dir
    → im.num_dir < 2 ^ 32
    → n < 32
    → (out : Memory) × (read_fs_dir im d buf (pos n) m file
        ≡ (pos n, record d { file_position = d.file_position + 1 }, out))
      × ((a : ℕ)
          → out a ≡ (
              if leb buf a && ltb a (buf + n)
              then name_char (im.dentry d.file_position).filename (a - buf)
              else m a))
unfolding read_fs_dir read_dentry_by_index fill_dentry
read_fs_dir_entry im d buf n m file h w s =
    let name = (im.dentry d.file_position).filename in
    let moved : u32 (d.file_position + 1) ≡ d.file_position + 1 = omega arith in
    (
      strncpy_to m buf (strncpy file.filename name 31) n,
      rw (leb-false _ _ h, moved),
      λ a.
          strncpy_to_lem m buf (strncpy file.filename name 31) n a
          ∙ ground (arith, name_char-strncpy file.filename name (a - buf)),
    )

-- From the end of the directory on a call returns 0 and writes nothing to the buffer.
pub read_fs_dir_end :
    (im : Image) (d : Descriptor) (buf : ℕ) (nbytes : ℤ) (m : Memory) (file : Dentry)
    → im.num_dir ≤ d.file_position
    → read_fs_dir im d buf nbytes m file
      ≡ (pos 0, record d { file_position = u32 (d.file_position + 1) }, m)
unfolding read_fs_dir read_dentry_by_index
read_fs_dir_end im d buf nbytes m file h = ground arith
