-- ===== src/Fuse.antt =====
-- The FUSE operations of asgn4/run_fs.c. `disk` is what open of the image file returns; a negative
-- one is handed on. Printing and closing are left out.
use free_bsd_messaround.Prelude.{
  ℕ, zero, suc, ◌+◌, Option, none, some, List, [], ◌∷◌, ◌==◌, if◌then◌else◌, bit_or, ℤ, pos, negsuc,
}
use free_bsd_messaround.Aofs.Bitmap.{bit_at}
use free_bsd_messaround.Aofs.Disk.{
  Name, name_eq, Block, Disk, Environment, done, Cmd, pure, ◌>>=◌, ◌>>◌, write_block, block_num,
}
use free_bsd_messaround.Aofs.Blocks.{is_negative}
use free_bsd_messaround.Aofs.Files.{aofs_find_file_head, aofs_create_file, aofs_delete_file, enoent}
use free_bsd_messaround.Aofs.Read.{Copied, aofs_read_file}
use free_bsd_messaround.Aofs.Write.{aofs_write_file}
use free_bsd_messaround.Aofs.Truncate.{aofs_truncate_file}

-- "/", "." and "..".
abbrev pub slash : Name
slash = b'/' ∷ []

abbrev pub dot : Name
dot = b'.' ∷ []

abbrev pub dots : Name
dots = b'.' ∷ b'.' ∷ []

-- path + 1.
abbrev pub drop_first : Name → Name
drop_first [] = []
drop_first (c ∷ rest) = rest

-- The fields of struct stat that are written.
pub record Stat : Type 0 where
  pub mode : ℕ
  pub nlink : ℕ
  pub ino : ℕ
  pub dev : ℕ
  pub atime : ℕ
  pub mtime : ℕ
  pub ctime : ℕ
  pub size : ℕ
  pub blocks : ℕ
  pub blksize : ℕ
  pub flags : ℕ
  pub uid : ℕ
  pub gid : ℕ

-- After memset.
abbrev pub zero_stat : Stat
zero_stat = record {
  mode = 0;
  nlink = 0;
  ino = 0;
  dev = 0;
  atime = 0;
  mtime = 0;
  ctime = 0;
  size = 0;
  blocks = 0;
  blksize = 0;
  flags = 0;
  uid = 0;
  gid = 0;
}

-- S_IFDIR and S_IFREG of the system's headers.
pub record Modes : Type 0 where
  pub ifdir : ℕ
  pub ifreg : ℕ

pub stat_of : Modes → Block → Stat
stat_of c b = record {
  mode = bit_or (bit_or c.ifreg 0o444) 0o666;
  nlink = 1;
  ino = 0;
  dev = 0;
  atime = b.atim;
  mtime = b.mtim;
  ctime = b.ctim;
  size = b.size;
  blocks = b.blocks;
  blksize = b.blksize;
  flags = b.flags;
  uid = b.uid;
  gid = b.gid;
}

-- The result and *stbuf.
pub getattr_found : Modes → Disk → Option ℕ → ℤ × Stat
unfolding stat_of
getattr_found c d none = (enoent, zero_stat)
getattr_found c d (some i) = (pos 0, stat_of c (d.blocks i))

pub aofs_getattr : Modes → ℤ → Name → Stat → Disk → ℤ × Stat
unfolding getattr_found
aofs_getattr c disk path stbuf d =
    if is_negative disk
    then (disk, stbuf)
    else if name_eq path slash
    then (pos 0, record zero_stat { mode = bit_or c.ifdir 0o755; nlink = 2 })
    else getattr_found c d (aofs_find_file_head d path)

-- The names handed to the filler, for the blocks from `i` on.
pub readdir_loop : Disk → ℕ → ℕ → List Name
readdir_loop d zero i = []
readdir_loop d (suc n) i =
    let rest = readdir_loop d n (i + 1) in
    if bit_at d.sb.bitmap i == 0
    then rest
    else if (d.blocks i).head
    then drop_first (d.blocks i).filename ∷ rest
    else rest

-- The result and the names handed to the filler.
pub aofs_readdir : ℤ → Name → Disk → ℤ × List Name
unfolding readdir_loop
aofs_readdir disk path d =
    if name_eq path slash
    then if is_negative disk
      then (disk, dot ∷ dots ∷ [])
      else (pos 0, dot ∷ dots ∷ readdir_loop d block_num 0)
    else (pos 0, drop_first path ∷ [])

pub aofs_open : ℤ → Name → Disk → ℤ
aofs_open disk path d =
    if is_negative disk
    then disk
    else elim (aofs_find_file_head d path) [ none ↦ enoent | some i ↦ pos 0 ]

module _ (e : Environment) where
  pub aofs_create : ℤ → Name → Cmd ℤ
  aofs_create disk path =
      if is_negative disk
      then pure disk
      else do x ← aofs_create_file e path; pure (if is_negative x then negsuc 0 else pos 0)

  pub aofs_read : ℤ → Name → (ℕ → ℕ) → ℕ → ℕ → Cmd Copied
  aofs_read disk path buf size offset =
      if is_negative disk
      then pure (record { result = disk; buf = buf })
      else aofs_read_file e path buf size offset

  pub aofs_write : ℤ → Name → (ℕ → ℕ) → ℕ → ℕ → Cmd ℤ
  aofs_write disk path buf size offset =
      if is_negative disk
      then pure disk
      else do n ← aofs_write_file e path buf size offset; pure (pos n)

  pub aofs_unlink : ℤ → Name → Cmd ℤ
  aofs_unlink disk path = if is_negative disk then pure disk else aofs_delete_file e path

  pub aofs_truncate : ℤ → Name → ℕ → Cmd ℤ
  aofs_truncate disk path size =
      if is_negative disk then pure disk else aofs_truncate_file e path size

  -- The number and the block that aofs_find_file_head leaves in the caller's variables: -1, and what
  -- the stack held, if there is no such file.
  pub found_or_stack : Disk → Name → ℤ × Block
  found_or_stack d path = elim (aofs_find_file_head d path) [
    | none ↦ (negsuc 0, e.stack)
    | some i ↦ (pos i, d.blocks i)
  ]

  -- ts[0].tv_sec and ts[1].tv_sec.
  pub aofs_utimens : ℤ → Name → ℕ → ℕ → Cmd ℤ
  aofs_utimens disk path access modification d =
      if is_negative disk
      then done disk d
      else (let (file_head, head) = found_or_stack d path in
          (write_block file_head (record head { atim = access; mtim = modification })
              >> pure (pos 0))
            d)

  pub aofs_chown : ℤ → Name → ℕ → ℕ → Cmd ℤ
  aofs_chown disk path uid gid d =
      if is_negative disk
      then done disk d
      else (let (file_head, head) = found_or_stack d path in
          (write_block file_head (record head { uid = uid; gid = gid }) >> pure (pos 0)) d)
