-- ===== src/Aofs/Disk.antt =====
-- The disk image of asgn4/aofs.h and the functions of aofs.c that move a block or the superblock
-- between the image and memory. Reads and writes of the image file are taken to succeed.
use free_bsd_messaround.Prelude.{
  ℕ, ◌+◌, ◌-◌, ◌≡◌, Bool, true, false, ◌&&◌, List, [], ◌∷◌, ltb, ◌==◌, if◌then◌else◌, update, ℤ,
  pos, negsuc, refl, arith, ◌↔◌,
}
use free_bsd_messaround.Aofs.Bitmap.{Bitmap}

-- BLOCK_NUM, BLOCK_SIZE and MAGICNUM.
abbrev pub block_num : ℕ
block_num = 4096

abbrev pub block_size : ℕ
block_size = 4096

abbrev pub magicnum : ℕ
magicnum = 0xfa19283e

-- BLOCK_DATA: sizeof(BlockMeta) is 328 where pointers and off_t have 8 bytes.
abbrev pub block_data : ℕ
block_data = 3768

-- A path as the bytes before its final zero.
abbrev pub Name : Type 0
Name = List ℕ

-- !strcmp(a, b).
unfoldable pub name_eq : Name → Name → Bool
name_eq [] [] = true
name_eq [] (y ∷ b) = false
name_eq (x ∷ a) [] = false
name_eq (x ∷ a) (y ∷ b) = x == y && name_eq a b

pub record SuperBlock : Type 0 where
  pub magic : ℕ
  pub totalblocks : ℕ
  pub blocksize : ℕ
  pub bitmap : Bitmap

-- The fields of BlockMeta, in its order, and the data bytes by their index.
pub record Block : Type 0 where
  pub filename : Name
  pub next : ℤ
  pub head : Bool
  pub mode : ℕ
  pub atim : ℕ
  pub mtim : ℕ
  pub ctim : ℕ
  pub size : ℕ
  pub uid : ℕ
  pub gid : ℕ
  pub blocks : ℕ
  pub blksize : ℕ
  pub flags : ℕ
  pub birthtim : ℕ
  pub bytes : ℕ → ℕ

-- struct AOFS, and the image file that holds it.
pub record Disk : Type 0 where
  pub sb : SuperBlock
  pub blocks : ℕ → Block

-- What the code takes from outside: the time that time(NULL) returns during a call, what a block
-- variable on the stack holds before it is written, and the block that a read at block number -1
-- makes of the superblock's bytes, which lie before block 0.
pub record Environment : Type 0 where
  pub now : ℕ
  pub stack : Block
  pub before : SuperBlock → Block

-- A call ends with a value and the new image, accesses the image outside the superblock and the
-- blocks 0 … BLOCK_NUM - 1 (apart from the read at -1), or uses up the fuel of a loop.
pub data Out {ℓ} (A : Type ℓ) : Type ℓ where
  done : A → Disk → Out A
  outside : Out A
  spins : Out A

abbrev pub Cmd {ℓ} : Type ℓ → Type ℓ
Cmd A = Disk → Out A

abbrev pub pure {ℓ} : {A : Type ℓ} → A → Cmd A
pure = done

module _ {ℓ κ} {A : Type ℓ} {B : Type κ} where
  abbrev pub and_then : Out A → (A → Cmd B) → Out B
  and_then (done a d) k = k a d
  and_then outside k = outside
  and_then spins k = spins

  infixl 5 ◌>>=◌ ◌>>◌
  abbrev pub ◌>>=◌ : Cmd A → (A → Cmd B) → Cmd B
  m >>= k = λ d. and_then (m d) k

  abbrev pub ◌>>◌ : Cmd A → Cmd B → Cmd B
  m >> n = m >>= λ _. n

abbrev pub none_yet : ℤ
none_yet = negsuc 0

-- read_super_block and write_super_block.
abbrev pub read_super_block : Cmd SuperBlock
read_super_block d = done d.sb d

abbrev pub write_super_block : SuperBlock → Cmd (Unit {0})
write_super_block sb d = done tt (record d { sb = sb })

unfoldable pub read_block : Environment → ℤ → Cmd Block
read_block e (pos n) d = if ltb n block_num then done (d.blocks n) d else outside
read_block e (negsuc n) d = if n == 0 then done (e.before d.sb) d else outside

unfoldable pub write_block : ℤ → Block → Cmd (Unit {0})
write_block (pos n) b d =
    if ltb n block_num then done tt (record d { blocks = update d.blocks n b }) else outside
write_block (negsuc n) b d = outside

-- memcpy(dst + at, src, n).
abbrev pub copy : (ℕ → ℕ) → ℕ → (ℕ → ℕ) → ℕ → ℕ → ℕ
copy dst at src n i = if ltb i at then dst i else if ltb i (at + n) then src (i - at) else dst i

pub name_eq_iff : (a b : Name) → (name_eq a b ≡ true) ↔ (a ≡ b)
unfolding name_eq
name_eq_iff [] [] = (λ h. refl, λ h. refl)
name_eq_iff [] (y ∷ b) = (λ h. absurd (cc), λ h. absurd (cc))
name_eq_iff (x ∷ a) [] = (λ h. absurd (cc), λ h. absurd (cc))
name_eq_iff (x ∷ a) (y ∷ b) =
    let ih = name_eq_iff a b in (λ h. ground (arith, ih), λ h. ground (arith, ih))
