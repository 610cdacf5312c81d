-- ===== src/Aofs/Tests.antt =====
-- Images of one file "/a", in one block, and of one file "/b" in three blocks.
use free_bsd_messaround.Prelude.{
  ℕ, ◌+◌, ◌-◌, ◌*◌, ◌<◌, ◌≤◌, ◌≡◌, refl, true, false, none, some, [], ◌∷◌, pos, negsuc, update,
  arith, has, if◌then◌else◌, ltb, ◌==◌, ==_iff, Bool-cases, inl, inr,
}
use free_bsd_messaround.Aofs.Bitmap.{bit_at}
use free_bsd_messaround.Aofs.Disk.{
  Name, name_eq, Block, Disk, Environment, done, block_num, block_size, block_data, magicnum,
}
use free_bsd_messaround.Aofs.Blocks.Allocate.{IsSound}
use free_bsd_messaround.Aofs.Blocks.Chain.{Chain, nil, cons, FreesAll}
use free_bsd_messaround.Aofs.Files.{
  is_head_of, aofs_find_file_head, aofs_create_file, aofs_delete_file, enoent,
}
use free_bsd_messaround.Aofs.Files.Find.{find_unique}
use free_bsd_messaround.Aofs.Files.Create.{Created, aofs_create_file-Created}
use free_bsd_messaround.Aofs.Files.Delete.{aofs_delete_file-FreesAll, aofs_delete_file_missing}
use free_bsd_messaround.Aofs.Write.{aofs_write_file}
use free_bsd_messaround.Aofs.Read.{Copied, aofs_read_file}
use free_bsd_messaround.Aofs.Read.Single.{aofs_read_file-aofs_write_file}
use free_bsd_messaround.Aofs.Read.Overlap.{aofs_read_file_overlap}

abbrev pub path_a : Name
path_a = b'/' ∷ b'a' ∷ []

abbrev pub path_b : Name
path_b = b'/' ∷ b'b' ∷ []

abbrev blank : Block
blank = record {
  filename = [];
  next = negsuc 0;
  head = false;
  mode = 0;
  atim = 0;
  mtim = 0;
  ctim = 0;
  size = 0;
  uid = 0;
  gid = 0;
  blocks = 0;
  blksize = block_data;
  flags = 0;
  birthtim = 0;
  bytes = λ i. 0;
}

abbrev pub env : Environment
env = record { now = 100; stack = blank; before = λ sb. blank }

abbrev head_a : Block
head_a = record blank { filename = path_a; head = true; size = 10; bytes = λ i. 65 }

-- "/a" in block 3 of an image with no other file.
abbrev pub small : Disk
small = record {
  sb = record {
    magic = magicnum;
    totalblocks = block_num;
    blocksize = block_size;
    bitmap = update (λ i. 0) 0 8;
  };
  blocks = update (λ i. blank) 3 head_a;
}

small-IsSound : IsSound small
small-IsSound = record { bytes = λ i. ground arith; within = omega arith }

elsewhere : (name : Name) (j : ℕ) → (j == 3) ≡ false → is_head_of small name j ≡ false
unfolding is_head_of
elsewhere name j u = elim (Bool-cases (bit_at small.sb.bitmap j == 0)) [
  | inl e ↦ rw e refl
  | inr e ↦ rw (e, u) refl
]

head_is_a : is_head_of small path_a 3 ≡ true
unfolding is_head_of bit_at name_eq
head_is_a = refl

head_is_not_b : is_head_of small path_b 3 ≡ false
unfolding is_head_of bit_at name_eq
head_is_not_b = refl

small_has : aofs_find_file_head small path_a ≡ some 3
small_has =
    find_unique small path_a (some 3)
      (omega arith, omega arith, head_is_a, λ j a b. elsewhere path_a j (ground arith))

pub small_lacks : aofs_find_file_head small path_b ≡ none
small_lacks = find_unique small path_b none (λ j a b. elim (Bool-cases (j == 3)) [
  | inl u ↦ let q : j ≡ 3 = (==_iff j 3).0 u in rw q head_is_not_b
  | inr u ↦ elsewhere path_b j u
])

small-Chain : Chain small (pos 3) (3 ∷ [])
small-Chain = cons (omega arith) refl refl nil

aofs_create_file-Created_example : Created env path_b small (aofs_create_file env path_b small)
aofs_create_file-Created_example =
    aofs_create_file-Created env path_b (omega arith) small small-IsSound

only_three : (j : ℕ) → has j (3 ∷ []) ≡ false → is_head_of small path_a j ≡ false
only_three j h = elsewhere path_a j (ground arith)

aofs_delete_file-FreesAll_example :
    (d' : Disk) × (aofs_delete_file env path_a small ≡ done (pos 0) d')
    × FreesAll env (3 ∷ []) small d'
    × (aofs_find_file_head d' path_a ≡ none)
    × ((other : Name) (j : ℕ)
        → is_head_of d' other j ≡ (if has j (3 ∷ []) then false else is_head_of small other j))
aofs_delete_file-FreesAll_example =
    aofs_delete_file-FreesAll env small path_a 3 (3 ∷ []) small-IsSound small_has small-Chain
      only_three

aofs_delete_file_missing_example : aofs_delete_file env path_b small ≡ done enoent small
aofs_delete_file_missing_example = aofs_delete_file_missing env small path_b small_lacks

aofs_read_file-aofs_write_file_example :
    (d' : Disk) × (d'' : Disk) × (r : Copied) × (aofs_write_file env path_a (λ i. i) 7 4 small
      ≡ done 7 d')
    × (aofs_read_file env path_a (λ i. 0) 7 4 d' ≡ done r d'')
    × (r.result ≡ pos 7)
    × ((i : ℕ) → r.buf i ≡ (if ltb i 7 then i else 0))
aofs_read_file-aofs_write_file_example =
    aofs_read_file-aofs_write_file env path_a 3 4 7 (λ i. i) (λ i. 0) small small_has (omega arith)
      refl (omega arith) (omega arith) (omega arith)

-- "/b" in blocks 3, 5 and 4 of an image with no other file.
abbrev chained : Disk
chained = record {
  sb = record (small.sb) { bitmap = update (λ i. 0) 0 56 };
  blocks =
      update
        (update
          (update (λ i. blank) 3
            (record blank {
              filename = path_b;
              head = true;
              next = pos 5;
              size = 11000;
              bytes = λ i. 65;
            }))
          5 (record blank { filename = path_b; next = pos 4; bytes = λ i. 66 }))
        4 (record blank { filename = path_b; bytes = λ i. 67 });
}

chained_unheaded : (j : ℕ) → (j == 3) ≡ false → (chained.blocks j).head ≡ false
chained_unheaded j u = elim (Bool-cases (j == 4)) [
  | inl v ↦ rw v refl
  | inr v ↦ elim (Bool-cases (j == 5)) [ inl w ↦ rw (v, w) refl | inr w ↦ rw (v, w, u) refl ]
]

chained_elsewhere : (j : ℕ) → (j == 3) ≡ false → is_head_of chained path_b j ≡ false
unfolding is_head_of
chained_elsewhere j u = elim (Bool-cases (bit_at chained.sb.bitmap j == 0)) [
  | inl e ↦ rw e refl
  | inr e ↦ rw (e, chained_unheaded j u) refl
]

chained_head : is_head_of chained path_b 3 ≡ true
unfolding is_head_of bit_at name_eq
chained_head = refl

chained_has : aofs_find_file_head chained path_b ≡ some 3
chained_has =
    find_unique chained path_b (some 3)
      (omega arith, omega arith, chained_head, λ j a b. chained_elsewhere j (ground arith))

aofs_read_file_overlap_example :
    (r : Copied) × (d' : Disk) × (aofs_read_file env path_b (λ i. 0) 11000 0 chained ≡ done r d')
    × (r.result ≡ pos 11000)
    × ((i : ℕ) → i < block_data → r.buf i ≡ 66)
    × ((i : ℕ) → block_data ≤ i → i < 2 * block_data → r.buf i ≡ 0)
    × ((i : ℕ) → i < 11000 - 2 * block_data → r.buf (2 * block_data + i) ≡ 67)
aofs_read_file_overlap_example =
    aofs_read_file_overlap env path_b 3 5 4 11000 (λ i. 0) chained chained_has (omega arith) refl
      (omega arith) (omega arith) refl (omega arith) (omega arith) (omega arith) (omega arith)
