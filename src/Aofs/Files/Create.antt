-- ===== src/Aofs/Files/Create.antt =====
-- A created file is found, and no other file is touched.
use free_bsd_messaround.Prelude.{
  ℕ, ◌≡◌, refl, ◌∙◌, Bool, true, false, Option, none, some, ◌==◌, ==_iff, ==_self, sym,
  if◌then◌else◌, ltb, lt→ltb, length, ◌<◌, arith, Bool-cases, inl, inr, ℤ, pos, negsuc, update,
}
use free_bsd_messaround.Aofs.Bitmap.{bit_at}
use free_bsd_messaround.Aofs.Disk.{
  Name, name_eq, Disk, Environment, Out, done, outside, spins, block_num, and_then,
}
use free_bsd_messaround.Aofs.Blocks.{fresh_block}
use free_bsd_messaround.Aofs.Blocks.Allocate.{
  IsSound, Claims, Allocated, allocate_block-Allocated, write_block-done,
}
use free_bsd_messaround.Aofs.Files.{
  is_head_of, aofs_find_file_head, head_block, filename_size, put_head, aofs_create_file,
}
use free_bsd_messaround.Aofs.Files.Find.{
  FirstHead, aofs_find_file_head-FirstHead, find_unique, find_same,
}

-- The lesser of a block and the one that was found, if any.
abbrev pub earliest : ℕ → Option ℕ → Option ℕ
earliest n none = some n
earliest n (some old) = some (if ltb old n then old else n)

-- What creating `name` does: a free block becomes its head, so that the name is found there, or at
-- a head of that name that comes before; every other name is found where it was, and no other block
-- changes. Or the image is full and unchanged.
abbrev pub Created : Environment → Name → Disk → Out ℤ → Type 0
Created e name d (done (pos n) d') =
    ((other : Name)
      → aofs_find_file_head d' other ≡ (
          if name_eq name other
          then earliest n (aofs_find_file_head d other)
          else aofs_find_file_head d other))
    × ((j : ℕ) → d'.blocks j ≡ (if j == n then head_block e name else d.blocks j))
    × ((j : ℕ) → bit_at d'.sb.bitmap j ≡ (if j == n then 1 else bit_at d.sb.bitmap j))
    × (n < block_num)
    × (bit_at d.sb.bitmap n ≡ 0)
    × IsSound d'
Created e name d (done (negsuc k) d') =
    (k ≡ 0) × (d' ≡ d) × ((j : ℕ) → j < d.sb.totalblocks → bit_at d.sb.bitmap j ≡ 1)
Created e name d outside = ⊥
Created e name d spins = ⊥

module _ (e : Environment) (name : Name) where
  -- The image after the head block has been written.
  abbrev with_head : ℕ → Disk → Disk
  with_head n d1 = record d1 { blocks = update d1.blocks n (head_block e name) }

  heads :
      (n : ℕ) (d d1 : Disk) (other : Name) (j : ℕ)
      → Claims n (fresh_block e) d d1
      → is_head_of (with_head n d1) other j
        ≡ (if j == n then name_eq name other else is_head_of d other j)
  unfolding is_head_of head_block
  heads n d d1 other j c = elim (Bool-cases (j == n)) [
    | inl u ↦ rw (c.bits j, u) refl
    | inr u ↦ rw (c.bits j, u, c.contents j, u) refl
  ]

  free_is_no_head :
      (d : Disk) (other : Name) (n : ℕ) → bit_at d.sb.bitmap n ≡ 0 → is_head_of d other n ≡ false
  unfolding is_head_of
  free_is_no_head d other n h = rw h refl

  other_heads :
      (n : ℕ) (d d1 : Disk) (other : Name) (j : ℕ)
      → name_eq name other ≡ false
      → Claims n (fresh_block e) d d1
      → is_head_of (with_head n d1) other j ≡ is_head_of d other j
  other_heads n d d1 other j ne c = heads n d d1 other j c ∙ elim (Bool-cases (j == n)) [
    | inl u ↦
        let q : j ≡ n = (==_iff j n).0 u in
        rw (u, ne, q) (sym (free_is_no_head d other n c.was_free))
    | inr u ↦ rw u refl
  ]

  new_head :
      (n : ℕ) (d d1 : Disk) (other : Name)
      → name_eq name other ≡ true
      → Claims n (fresh_block e) d d1
      → is_head_of (with_head n d1) other n ≡ true
  new_head n d d1 other eq c = heads n d d1 other n c ∙ rw (==_self n) eq

  old_head :
      (n : ℕ) (d d1 : Disk) (other : Name) (j : ℕ) (b : Bool)
      → (j == n) ≡ false
      → is_head_of d other j ≡ b
      → Claims n (fresh_block e) d d1
      → is_head_of (with_head n d1) other j ≡ b
  old_head n d d1 other j b ne h c = heads n d d1 other j c ∙ rw ne h

  first_head :
      (n : ℕ) (d d1 : Disk) (other : Name) (r : Option ℕ)
      → name_eq name other ≡ true
      → Claims n (fresh_block e) d d1
      → n < block_num
      → FirstHead d other 0 r
      → FirstHead (with_head n d1) other 0 (earliest n r)
  first_head n d d1 other none eq c l h = (
    omega arith,
    l,
    new_head n d d1 other eq c,
    λ j a b. old_head n d d1 other j false (ground arith) (h j a (omega arith)) c,
  )
  first_head n d d1 other (some old) eq c l h = elim (Bool-cases (ltb old n)) [
    | inl u ↦ rw u (
      omega arith,
      h.1,
      old_head n d d1 other old true (ground arith) h.2 c,
      λ j a b. old_head n d d1 other j false (ground arith) (h.3 j a b) c,
    )
    | inr u ↦ rw u (
      omega arith,
      l,
      new_head n d d1 other eq c,
      λ j a b. old_head n d d1 other j false (ground arith) (h.3 j a (ground arith)) c,
    )
  ]

  found_after :
      (n : ℕ) (d d1 : Disk) (other : Name)
      → Claims n (fresh_block e) d d1
      → n < block_num
      → aofs_find_file_head (with_head n d1) other ≡ (
          if name_eq name other
          then earliest n (aofs_find_file_head d other)
          else aofs_find_file_head d other)
  found_after n d d1 other c l = elim (Bool-cases (name_eq name other)) [
    | inl u ↦ rw u (
        find_unique (with_head n d1) other _
          (first_head n d d1 other _ u c l (aofs_find_file_head-FirstHead d other)))
    | inr u ↦ rw u (find_same d (with_head n d1) other (λ j. other_heads n d d1 other j u c))
  ]

  new_contents :
      (n : ℕ) (d d1 : Disk) (j : ℕ)
      → Claims n (fresh_block e) d d1
      → update d1.blocks n (head_block e name) j
        ≡ (if j == n then head_block e name else d.blocks j)
  new_contents n d d1 j c = elim (Bool-cases (j == n)) [
    | inl u ↦ rw u refl
    | inr u ↦ rw (u, c.contents j, u) refl
  ]

  module _ (fits : length name < filename_size) where
    put :
        (d d1 : Disk) (n : ℕ)
        → IsSound d
        → Claims n (fresh_block e) d d1
        → Created e name d (put_head e name (pos n) d1)
    unfolding put_head
    put d d1 n v c =
        let w = v.within in
        let b = c.below in
        rw
          (
            lt→ltb (length name) filename_size fits,
            write_block-done n (head_block e name) d1 (omega arith),
          )
          (
            λ other. found_after n d d1 other c (omega arith),
            λ j. new_contents n d d1 j c,
            c.bits,
            omega arith,
            c.was_free,
            record { bytes = c.sound.bytes; within = c.sound.within },
          )

    after :
        (d : Disk) (o : Out ℤ)
        → IsSound d
        → Allocated e d o
        → Created e name d (and_then o (put_head e name))
    unfolding put_head
    after d (done (pos n) d1) v c = put d d1 n v c
    after d (done (negsuc k) d1) v c = c
    after d outside v c = c
    after d spins v c = c

    -- On a sound image, with a name of at most 255 bytes, aofs_create_file makes a free block the head of the file, after which its
    -- name is found there or at a head of that name that comes before, every other name is found where
    -- it was and no other block or bit has changed; or it returns -1, and the image is unchanged and
    -- has no free block.
    pub aofs_create_file-Created :
        (d : Disk) → IsSound d → Created e name d (aofs_create_file e name d)
    unfolding aofs_create_file
    aofs_create_file-Created d v = after d _ v (allocate_block-Allocated e d v)
