-- ===== src/Tests/Files.antt =====
-- Runs on a small image of the file system: two regular files of one block each.
use linux_based_os.Prelude.{
  ℕ, zero, suc, ◌+◌, ◌*◌, ◌%◌, ◌^◌, ◌<◌, ◌≡◌, ◌↔◌, ◌==◌, if◌then◌else◌, arith, pos, refl, inl, inr,
  some,
}
use linux_based_os.Strings.{Str}
use linux_based_os.Memory.{Memory}
use linux_based_os.Descriptor.{Descriptor, filesystem_reg, filesystem_dir}
use linux_based_os.Filesystem.{
  Image, Dentry, read_data, read_dentry_by_name, read_dentry_by_index, fill_dentry,
}
use linux_based_os.Filesystem.Data.{IsReadable, read_data_lem}
use linux_based_os.Filesystem.Data.Chunks.{filled}
use linux_based_os.Filesystem.Data.Errors.{EndsAt}
use linux_based_os.Filesystem.Lookup.{SameName, HasBytes}
use linux_based_os.Filesystem.Lookup.RoundTrip.{read_dentry_by_name-by_index}
use linux_based_os.Filesystem.Read.{read_fs}
use linux_based_os.Filesystem.Read.File.{IsOpenFile, Delivers, read_fs_lem}
use linux_based_os.Filesystem.Read.Sequence.{read_fs_consecutive}
use linux_based_os.Filesystem.Program.{load_process, is_executable}
use linux_based_os.Filesystem.Program.Load.{IsProgram, load_process_lem}
use linux_based_os.Filesystem.Program.Check.{is_executable_iff}

-- A name of one character.
abbrev pub letter : ℕ → Str
letter c j = if j == 0 then c else 0

abbrev pub named_entry : ℕ → Dentry
named_entry i = record { filename = letter (97 + i % 100); filetype = 2; idx_inode = i + 1 }

-- Entries "a" and "b", inodes 1 and 2 with 50 bytes in block 1.
abbrev pub files : Image
files = record {
  num_dir = 2;
  num_inode = 4;
  num_data = 3;
  dentry = named_entry;
  inode = λ i. record { length = 50; dblocks = λ j. 1 };
  blocks = λ a. a % 256;
}

abbrev pub zeros : Memory
zeros a = 0

pub files-HasBytes : HasBytes files
files-HasBytes = record { bytes = λ i j. ground arith }

pub a_same : SameName (letter 97) (letter 97)
a_same = (refl, inr (refl, inl refl))

abbrev ReadableAt : (offset length : ℕ) → Type 0
ReadableAt offset length = IsReadable files 1 offset length

read_10 : ReadableAt 10 20
read_10 = record {
  known = omega arith;
  within = omega arith;
  long = omega arith;
  no_wrap = omega arith;
  blocks = record { few = omega arith; inside = λ j p. omega arith };
}

read_data_example :
    (out : Memory) × (read_data files 1 10 1000 20 zeros ≡ some (pos 20, out))
    × ((a : ℕ) → out a ≡ filled files (files.inode 1) 1000 10 20 zeros a)
read_data_example = read_data_lem files 1 10 1000 20 zeros read_10

-- One file of exactly one block, and no number of a second block.
abbrev full : Image
full = record {
  num_dir = 1;
  num_inode = 2;
  num_data = 3;
  dentry = named_entry;
  inode = λ i. record { length = 4096; dblocks = λ j. if j == 0 then 1 else 500 };
  blocks = λ a. a % 256;
}

full-EndsAt : EndsAt full (full.inode 1) 1
full-EndsAt = record {
  few = omega arith;
  inside = λ j p. ground arith;
  outside = omega arith;
  word = omega arith;
}

b_differs : ¬ SameName (letter 98) (letter 97)
b_differs (e, _) = absurd (omega (arith, e))

only_first : (j : ℕ) → j < 1 → ¬ SameName (letter 98) (letter (97 + j % 100))
only_first zero p = b_differs
only_first (suc j) p = absurd (omega arith)

read_dentry_by_name-by_index_example :
    ((read_dentry_by_index files 1 (named_entry 5)).0 ≡ pos 0)
    × (read_dentry_by_name files
          (read_dentry_by_index files 1 (named_entry 5)).1.filename
          (named_entry 6)
        ≡ (pos 0, fill_dentry (named_entry 6) (named_entry 1)))
read_dentry_by_name-by_index_example =
    read_dentry_by_name-by_index files files-HasBytes 1 (named_entry 5) (named_entry 6)
      (λ i. ground arith) (omega arith) only_first

-- The first file, open at position 10, and the directory, open at its second entry.
abbrev open_file : Descriptor
open_file = record {
  fd_jumptable = some filesystem_reg;
  inode_indx = 1;
  file_position = 10;
  flags = 1;
}

abbrev open_dir : Descriptor
open_dir = record {
  fd_jumptable = some filesystem_dir;
  inode_indx = 0;
  file_position = 1;
  flags = 1;
}

pub first_file : IsOpenFile files 1 0
first_file = record {
  first = record { listed = omega arith; has = refl; before = λ j p. absurd (omega arith) };
  regular = refl;
}

read_fs_example :
    Delivers files open_file 1000 20 zeros
      (read_fs 5 files open_file 1000 (pos 20) zeros (named_entry 5) (named_entry 6) (pos 0))
read_fs_example =
    read_fs_lem files open_file 0 first_file 5 1000 20 zeros (named_entry 5) (named_entry 6) (pos 0)
      (omega arith) read_10 (omega arith)

pub a-IsProgram : IsProgram files (letter 97) 0
a-IsProgram = record {
  bytes = files-HasBytes;
  name = λ i. ground arith;
  data_bytes = λ i. omega arith;
  listed = omega arith;
  same = a_same;
  first = λ j p. absurd (omega arith);
  regular = refl;
  readable = record {
    known = omega arith;
    within = omega arith;
    long = omega arith;
    no_wrap = omega arith;
    blocks = record { few = omega arith; inside = λ j p. omega arith };
  };
  header = omega arith;
}

load_process_example :
    (out : Memory) × (load_process files
        (letter 97)
        0x8048000
        (named_entry 5)
        (named_entry 6)
        zeros
        zeros
      ≡ some (24 + 25 * 2 ^ 8 + 26 * 2 ^ 16 + 27 * 2 ^ 24, out))
    × ((a : ℕ) → out a ≡ filled files (files.inode 1) 0x8048000 0 50 zeros a)
load_process_example =
    load_process_lem files (letter 97) 0 a-IsProgram 0x8048000 (named_entry 5) (named_entry 6) zeros
      zeros (λ i. omega arith)

is_executable_example :
    (is_executable files (some (letter 97)) (named_entry 5) zeros ≡ some (pos 1)) ↔ (
      (files.blocks 4096 ≡ 0x7F)
      × (files.blocks 4097 ≡ 0x45)
      × (files.blocks 4098 ≡ 0x4C)
      × (files.blocks 4099 ≡ 0x46))
is_executable_example =
    is_executable_iff files (letter 97) 0 a-IsProgram (named_entry 5) zeros (omega arith)

later_30 : ReadableAt 30 40
later_30 = record {
  known = omega arith;
  within = omega arith;
  long = omega arith;
  no_wrap = omega arith;
  blocks = record { few = omega arith; inside = λ j p. omega arith };
}

read_fs_consecutive_example :
    (m1 m2 : Memory) × (read_fs 5 files open_file 1000
        (pos 20)
        zeros
        (named_entry 5)
        (named_entry 6)
        (pos 0)
      ≡ some (pos 20, record open_file { file_position = 30 }, m1))
    × (read_fs 5 files
          (record open_file { file_position = 30 })
          1020
          (pos 40)
          m1
          (named_entry 5)
          (named_entry 6)
          (pos 0)
        ≡ some (pos 20, record open_file { file_position = 50 }, m2))
    × ((a : ℕ) → m2 a ≡ filled files (files.inode 1) 1000 10 40 zeros a)
read_fs_consecutive_example =
    read_fs_consecutive files open_file 0 first_file 5 1000 20 40 zeros (named_entry 5)
      (named_entry 6) (pos 0) (omega arith) (omega arith) (omega arith) later_30
