-- ===== src/Filesystem/Lookup/RoundTrip.antt =====
-- An entry that is read by its index is found again by the name that was read.
use linux_based_os.Prelude.{
  ℕ, zero, suc, ◌+◌, ◌≤◌, ◌<◌, ◌≡◌, inl, inr, refl, arith, pos, false, ◌==◌, Bool-cases,
}
use linux_based_os.Strings.{Str, strncpy}
use linux_based_os.Strings.Compare.{IsBytes, SamePrefix}
use linux_based_os.Strings.Copy.{nul_before, strncpy_lem}
use linux_based_os.Filesystem.Defs.{
  Image, Dentry, fill_dentry, read_dentry_by_name, read_dentry_by_index,
}
use linux_based_os.Filesystem.Lookup.{SameName, HasBytes, read_dentry_by_name_found}

-- Two strings that agree with a third agree.
SamePrefix-euclid :
    (left i : ℕ) (a s t : Str)
    → SamePrefix left i a s
    → SamePrefix left i a t
    → SamePrefix left i s t
SamePrefix-euclid zero i a s t p q = tt
SamePrefix-euclid (suc left) i a s t p q = ground (arith, SamePrefix-euclid left (i + 1) a s t)

-- A copy of 31 characters agrees with the name in those.
strncpy-SamePrefix :
    (left i : ℕ) (d s : Str)
    → i + left ≤ 31
    → nul_before i s ≡ false
    → SamePrefix left i (strncpy d s 31) s
strncpy-SamePrefix zero i d s h n = tt
strncpy-SamePrefix (suc left) i d s h n = elim (Bool-cases (s i == 0)) [
  | inl z ↦ (ground (arith, strncpy_lem d s 31 i), inl (ground (arith, strncpy_lem d s 31 i)))
  | inr z ↦ (
    ground (arith, strncpy_lem d s 31 i),
    inr (strncpy-SamePrefix left (i + 1) d s (omega arith) (ground arith)),
  )
]

strncpy-IsBytes : (d s : Str) (n : ℕ) → IsBytes d → IsBytes s → IsBytes (strncpy d s n)
strncpy-IsBytes d s n hd hs j = ground (arith, strncpy_lem d s n j, hd j, hs j)

-- Reading entry `i` by its index succeeds inside the directory, and looking up the name that this
-- gave finds entry `i`, if no earlier entry has the same 31 characters.
pub read_dentry_by_name-by_index :
    (im : Image) (hb : HasBytes im) (i : ℕ) (out1 out2 : Dentry)
    → IsBytes out1.filename
    → i < im.num_dir
    → ((j : ℕ) → j < i → ¬ SameName (im.dentry i).filename (im.dentry j).filename)
    → let d = (read_dentry_by_index im i out1).1 in
      ((read_dentry_by_index im i out1).0 ≡ pos 0)
      × (read_dentry_by_name im d.filename out2 ≡ (pos 0, fill_dentry out2 (im.dentry i)))
read_dentry_by_name-by_index im hb i out1 out2 h1 h unique = rw by_index (
  refl,
  read_dentry_by_name_found im hb (strncpy out1.filename name 31)
      (strncpy-IsBytes out1.filename name 31 h1 (hb.bytes i)) out2 i (omega arith) same
      (λ j p q. unique j p (
        SamePrefix-euclid 31 0 (strncpy out1.filename name 31) name (im.dentry j).filename same q)),
)
  where
    name : Str
    name = (im.dentry i).filename

    same : SameName (strncpy out1.filename name 31) name
    same = strncpy-SamePrefix 31 0 out1.filename name (omega arith) refl

    by_index : read_dentry_by_index im i out1 ≡ (
      pos 0,
      record {
        filename = strncpy out1.filename name 31;
        filetype = (im.dentry i).filetype;
        idx_inode = (im.dentry i).idx_inode;
      },
    )
    by_index = unfold read_dentry_by_index fill_dentry in ground arith
