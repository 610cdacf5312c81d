-- ===== src/Aofs/Files/Find.antt =====
-- The search for the head block of a file.
use free_bsd_messaround.Prelude.{
  ℕ, zero, suc, ◌+◌, ◌≤◌, ◌<◌, ◌≡◌, refl, true, false, Option, none, some, ◌==◌, ==_iff, arith, ltb,
  Bool-cases, inl, inr,
}
use free_bsd_messaround.Aofs.Disk.{Name, Disk, block_num}
use free_bsd_messaround.Aofs.Files.{is_head_of, find_loop, aofs_find_file_head}

-- What a search of the blocks from `i` on returns.
abbrev pub FirstHead : Disk → Name → ℕ → Option ℕ → Type 0
FirstHead d name i none = (j : ℕ) → i ≤ j → j < block_num → is_head_of d name j ≡ false
FirstHead d name i (some f) =
    (i ≤ f)
    × (f < block_num)
    × (is_head_of d name f ≡ true)
    × ((j : ℕ) → i ≤ j → j < f → is_head_of d name j ≡ false)

earlier :
    (d : Disk) (name : Name) (i : ℕ) (r : Option ℕ)
    → is_head_of d name i ≡ false
    → FirstHead d name (i + 1) r
    → FirstHead d name i r
earlier d name i none u h = λ j a b. elim (Bool-cases (j == i)) [
  | inl e ↦ let q : j ≡ i = (==_iff j i).0 e in rw q u
  | inr e ↦ h j (ground arith) b
]
earlier d name i (some f) u h = (
  omega arith,
  h.1,
  h.2,
  λ j a b. elim (Bool-cases (j == i)) [
    | inl e ↦ let q : j ≡ i = (==_iff j i).0 e in rw q u
    | inr e ↦ h.3 j (ground arith) b
  ],
)

find_loop-FirstHead :
    (d : Disk) (name : Name) (n i : ℕ)
    → i + n ≡ block_num
    → FirstHead d name i (find_loop d name n i)
unfolding find_loop
find_loop-FirstHead d name zero i e = λ j a b. absurd (omega arith)
find_loop-FirstHead d name (suc n) i e = elim (Bool-cases (is_head_of d name i)) [
  | inl u ↦ rw u (omega arith, omega arith, u, λ j a b. absurd (omega arith))
  | inr u ↦ rw u (earlier d name i _ u (find_loop-FirstHead d name n (i + 1) (omega arith)))
]

-- aofs_find_file_head returns the least allocated head block with the name, and -1 exactly when
-- there is none.
pub aofs_find_file_head-FirstHead :
    (d : Disk) (name : Name) → FirstHead d name 0 (aofs_find_file_head d name)
unfolding aofs_find_file_head
aofs_find_file_head-FirstHead d name = find_loop-FirstHead d name block_num 0 (omega arith)

FirstHead-unique :
    (d : Disk) (name : Name) (r r' : Option ℕ)
    → FirstHead d name 0 r
    → FirstHead d name 0 r'
    → r ≡ r'
FirstHead-unique d name none none h k = refl
FirstHead-unique d name none (some g) h k = let off = h g (omega arith) k.1 in absurd (cc)
FirstHead-unique d name (some f) none h k = let off = k f (omega arith) h.1 in absurd (cc)
FirstHead-unique d name (some f) (some g) h k = elim (Bool-cases (f == g)) [
  | inl u ↦ let q : f ≡ g = (==_iff f g).0 u in rw q refl
  | inr u ↦ elim (Bool-cases (ltb f g)) [
    | inl l ↦ let off = k.3 f (omega arith) (ground arith) in absurd (cc)
    | inr l ↦ let off = h.3 g (omega arith) (ground arith) in absurd (cc)
  ]
]

-- The search of an image is decided by which blocks are heads of the file.
pub find_unique :
    (d : Disk) (name : Name) (r : Option ℕ) → FirstHead d name 0 r → aofs_find_file_head d name ≡ r
find_unique d name r h = FirstHead-unique d name _ r (aofs_find_file_head-FirstHead d name) h

moved :
    (d d' : Disk) (name : Name) (r : Option ℕ)
    → ((j : ℕ) → is_head_of d' name j ≡ is_head_of d name j)
    → FirstHead d name 0 r
    → FirstHead d' name 0 r
moved d d' name none same h = λ j a b. rw (same j) (h j a b)
moved d d' name (some f) same h = (h.0, h.1, rw (same f) h.2, λ j a b. rw (same j) (h.3 j a b))

pub find_same :
    (d d' : Disk) (name : Name)
    → ((j : ℕ) → is_head_of d' name j ≡ is_head_of d name j)
    → aofs_find_file_head d' name ≡ aofs_find_file_head d name
find_same d d' name same =
    find_unique d' name _ (moved d d' name _ same (aofs_find_file_head-FirstHead d name))

pub missing_heads :
    (d : Disk) (name : Name)
    → aofs_find_file_head d name ≡ none
    → (j : ℕ) → j < block_num
    → is_head_of d name j ≡ false
missing_heads d name h j l =
    let f : FirstHead d name 0 none = rw h at (aofs_find_file_head-FirstHead d name) in
    f j (omega arith) l

pub found_head :
    (d : Disk) (name : Name) (i : ℕ)
    → aofs_find_file_head d name ≡ some i
    → (i < block_num) × (is_head_of d name i ≡ true)
found_head d name i h =
    let f : FirstHead d name 0 (some i) = rw h at (aofs_find_file_head-FirstHead d name) in
    (f.1, f.2)
