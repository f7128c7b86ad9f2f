-- ===== src/Drivers/Open.antt =====
-- Opening a file and reading it through the descriptor.
use linux_based_os.Prelude.{
  ℕ, ◌+◌, ◌^◌, ◌<◌, Option, ◌≡◌, ◌≤◌, ◌≢◌, ◌∙◌, refl, ap, arith, Bool, List, ℤ, pos, some,
  get_or-set_self,
}
use linux_based_os.Strings.{Str}
use linux_based_os.Descriptor.{
  Driver, Descriptor, rtc, filesystem_dir, filesystem_reg, keyboard, terminal,
}
use linux_based_os.Process.{max_fd, in_use, free_descriptor}
use linux_based_os.Filesystem.{Image, Dentry, reg_file}
use linux_based_os.Filesystem.Data.{IsReadable, available}
use linux_based_os.Filesystem.Data.Chunks.{filled}
use linux_based_os.Filesystem.Read.File.{IsOpenFile, read_fs_lem}
use linux_based_os.Syscall.{
  Machine, FileOps, fop_tables, descriptor, with_descriptor, opened, open_fd, read, through,
}
use linux_based_os.Syscall.Table.{IsTable}
use linux_based_os.Syscall.Open.{OpensQuietly, CanOpen, open_fd_runs}
use linux_based_os.Memory.{Memory}
use linux_based_os.Filesystem.Read.{read_fs}
use linux_based_os.Drivers.{World, drivers, has_read, open_fs}

module _ (im : Image) (fuel pcb_terminal current_a : ℕ) (arrivals : List Bool)
    (file dir_entry : Dentry) (garbage : ℤ) where
  -- The calls of the drivers.
  abbrev ops : Driver → FileOps World
  ops = drivers im fuel pcb_terminal current_a arrivals file dir_entry garbage

  open_runs :
      (dr : Driver) (name : Str) (m : Machine World)
      → (r : ℤ) × (m' : Machine World) × ((ops dr).open_op name m ≡ some (r, m')) × (m'.pcb ≡ m.pcb)
  unfolding drivers
  open_runs rtc name m = (_, _, refl, refl)
  open_runs filesystem_dir name m = (_, _, refl, refl)
  open_runs filesystem_reg name m = (_, _, refl, refl)
  open_runs keyboard name m = (_, _, refl, refl)
  open_runs terminal name m = (_, _, refl, refl)

  -- Every driver's `open` returns and leaves the control block alone.
  pub drivers-OpensQuietly : OpensQuietly ops
  drivers-OpensQuietly = record { runs = open_runs }

  -- `read` through a descriptor of a regular file.
  module _ (fd : ℕ) (m : Machine World) (d : Descriptor) (there : descriptor m.pcb fd ≡ d)
      (table : d.fd_jumptable ≡ some filesystem_reg) (used : d.flags ≢ 0) (room : fd < max_fd)
      (above : 2 ≤ fd) where
    read-read_op :
        (buf : ℕ) (nbytes : ℤ)
        → read ops (pos fd) (some buf) nbytes m ≡ (ops filesystem_reg).read_op (pos fd) buf nbytes m
    unfolding read through
    read-read_op buf nbytes = rw there (ground (arith, table))

    read-read_fs :
        (buf : ℕ) (nbytes : ℤ) {answer : ℤ × Descriptor × Memory}
        → read_fs fuel im d buf nbytes m.world.memory file dir_entry garbage ≡ some answer
        → read ops (pos fd) (some buf) nbytes m ≡ some (has_read fd m answer)
    unfolding drivers
    read-read_fs buf nbytes run = read-read_op buf nbytes ∙ rw (there, run) refl

  -- The descriptor that `open` fills for a regular file.
  abbrev pub file_descriptor : (inode : ℕ) → Descriptor
  file_descriptor inode = record {
    fd_jumptable = some filesystem_reg;
    inode_indx = inode;
    file_position = 0;
    flags = in_use;
  }

  opened-file_descriptor :
      (entry : Dentry) → entry.filetype ≡ reg_file → opened entry ≡ file_descriptor entry.idx_inode
  unfolding opened fop_tables
  opened-file_descriptor entry e = rw e refl

  -- `open` filled descriptor `fd`, and `read` put `count` bytes of the file at `buf`.
  abbrev pub OpensAndReads :
      (inode buf count fd : ℕ) (m m1 : Machine World) → Option (ℤ × Machine World) → Type 0
  OpensAndReads inode buf count fd m m1 answer =
      (m2 : Machine World) × (answer ≡ some (pos count, m2))
      × ((a : ℕ) → m2.world.memory a ≡ filled im (im.inode inode) buf 0 count m.world.memory a)
      × (m2.pcb
          ≡ (with_descriptor m1 fd (record (file_descriptor inode) { file_position = count })).pcb)
      × (m2.world.devices ≡ m.world.devices)

  -- With a well-formed table, a name that can be opened at `fd` and is that of a regular file, the
  -- first with its inode at index `k`, that is readable from its start, and with fuel above `k`:
  -- `open` returns `fd`, and a `read` of `n` bytes from it, through the tables of the drivers,
  -- returns the number of bytes there are, at most `n` and below 2 ^ 16, puts these bytes of the
  -- file at `buf`, and changes no other memory, no device, and of the control block the file
  -- position only.
  pub open_fd-read :
      (len : ℕ) (name : Str) (scratch entry : Dentry) (fd k buf n : ℕ) (m : Machine World)
      → IsTable m.pcb
      → CanOpen im fuel len name scratch entry fd m.pcb
      → entry.filetype ≡ reg_file
      → IsOpenFile im entry.idx_inode k
      → k < fuel
      → IsReadable im entry.idx_inode 0 n
      → available (im.inode entry.idx_inode) 0 n < 2 ^ 16
      → (m1 : Machine World) × (open_fd ops fuel im (some name) scratch m ≡ some (pos fd, m1))
        × OpensAndReads entry.idx_inode buf
            (available (im.inode entry.idx_inode) 0 n)
            fd
            m
            m1
            (read ops (pos fd) (some buf) (pos n) m1)
  unfolding drivers has_read fop_tables open_fs
  open_fd-read len name scratch entry fd k buf n m t c regular file_k enough readable small =
      let m1 = with_descriptor m fd (opened entry) in
      let count = available (im.inode entry.idx_inode) 0 n in
      let d = file_descriptor entry.idx_inode in
      let there : descriptor m1.pcb fd ≡ d =
        get_or-set_self m.pcb.file_array fd (opened entry) free_descriptor (rw t.eight c.room)
        ∙ opened-file_descriptor entry regular in
      let (out, run, bytes) =
        read_fs_lem im d k file_k fuel buf n m.world.memory file dir_entry garbage enough readable
          small in
      let from_0 : 0 + count ≡ count = omega arith in
      (
        m1,
        open_fd_runs ops drivers-OpensQuietly im fuel len name scratch entry fd m c filesystem_reg
            (pos 0) m1 (rw regular refl) refl,
        (
          (has_read fd m1 (pos count, record d { file_position = count }, out)).1,
          read-read_fs fd m1 d there refl (omega arith) c.room c.free.above buf (pos n)
              (run ∙ ap (λ (p : ℕ). some (pos count, record d { file_position = p }, out)) from_0),
          bytes,
          refl,
          refl,
        ),
      )
