-- ===== src/Aofs/Files/Delete.antt =====
-- What deleting a file frees, and what it leaves.
use free_bsd_messaround.Prelude.{
  ℕ, zero, suc, ◌+◌, ◌≤◌, ◌<◌, ◌≡◌, refl, ◌∙◌, false, none, some, List, [], ◌∷◌, ◌==◌, ==_iff,
  if◌then◌else◌, arith, Bool-cases, inl, inr, ℤ, pos, has, erase, length,
}
use free_bsd_messaround.Aofs.Disk.{Name, Disk, Environment, done, block_num}
use free_bsd_messaround.Aofs.Blocks.Allocate.{IsSound}
use free_bsd_messaround.Aofs.Blocks.Chain.{Chain, nil, cons, FreesAll, delete_chain-FreesAll}
use free_bsd_messaround.Aofs.Files.{is_head_of, aofs_find_file_head, enoent, aofs_delete_file}
use free_bsd_messaround.Aofs.Files.Find.{find_unique}

-- Distinct numbers below a bound.
abbrev DistinctBelow : ℕ → List ℕ → Type 0
DistinctBelow m [] = Unit
DistinctBelow m (x ∷ xs) = (x < m) × (has x xs ≡ false) × DistinctBelow m xs

has-erase : (a b : ℕ) (xs : List ℕ) → has a xs ≡ false → has a (erase b xs) ≡ false
has-erase a b [] h = h
has-erase a b (x ∷ xs) h = ground (arith, has-erase a b xs)

-- A list that lacks `m` and is below suc m is below m.
shift : (m : ℕ) (xs : List ℕ) → DistinctBelow (suc m) xs → has m xs ≡ false → DistinctBelow m xs
shift m [] h out = tt
shift m (x ∷ xs) h out = (ground (arith, h.0), h.1, shift m xs h.2 (ground arith))

DistinctBelow-erase :
    (m : ℕ) (xs : List ℕ) → DistinctBelow (suc m) xs → DistinctBelow m (erase m xs)
DistinctBelow-erase m [] h = tt
DistinctBelow-erase m (x ∷ xs) h = elim (Bool-cases (m == x)) [
  | inl u ↦ let q : m ≡ x = (==_iff m x).0 u in rw u (shift m xs h.2 (rw q h.1))
  | inr u ↦ rw u (ground arith, has-erase x m xs h.1, DistinctBelow-erase m xs h.2)
]

length-erase : (m : ℕ) (xs : List ℕ) → length xs ≤ length (erase m xs) + 1
length-erase m [] = omega arith
length-erase m (x ∷ xs) = ground (arith, length-erase m xs)

length-DistinctBelow : (m : ℕ) (xs : List ℕ) → DistinctBelow m xs → length xs ≤ m
length-DistinctBelow zero [] h = omega arith
length-DistinctBelow zero (x ∷ xs) h = absurd (omega (arith, h.0))
length-DistinctBelow (suc m) xs h =
    omega
      (arith, length-erase m xs, length-DistinctBelow m (erase m xs) (DistinctBelow-erase m xs h))

Chain-DistinctBelow : {d : Disk} {b : ℤ} {xs : List ℕ} → Chain d b xs → DistinctBelow block_num xs
Chain-DistinctBelow nil = tt
Chain-DistinctBelow (cons l e out c) = (l, out, Chain-DistinctBelow c)

gone :
    (xs : List ℕ) (path : Name) (d : Disk) (j : ℕ)
    → ((j : ℕ) → has j xs ≡ false → is_head_of d path j ≡ false)
    → (if has j xs then false else is_head_of d path j) ≡ false
gone xs path d j only = elim (Bool-cases (has j xs)) [
  | inl u ↦ rw u refl
  | inr u ↦ rw (u, only j u) refl
]

module _ (e : Environment) where
  heads_left :
      (d d' : Disk) (xs : List ℕ) (name : Name) (j : ℕ)
      → FreesAll e xs d d'
      → is_head_of d' name j ≡ (if has j xs then false else is_head_of d name j)
  unfolding is_head_of
  heads_left d d' xs name j f = elim (Bool-cases (has j xs)) [
    | inl u ↦ rw (f.bits j, u) refl
    | inr u ↦ rw (f.bits j, f.contents j, u) refl
  ]

  -- On a sound image, deleting a file whose blocks form a chain that holds every head of its name succeeds: exactly
  -- the blocks of the chain are freed and cleared, the file is no longer found, and the heads of
  -- any name are those of before that lie outside the chain.
  pub aofs_delete_file-FreesAll :
      (d : Disk) (path : Name) (i : ℕ) (xs : List ℕ)
      → IsSound d
      → aofs_find_file_head d path ≡ some i
      → Chain d (pos i) xs
      → ((j : ℕ) → has j xs ≡ false → is_head_of d path j ≡ false)
      → (d' : Disk) × (aofs_delete_file e path d ≡ done (pos 0) d')
        × FreesAll e xs d d'
        × (aofs_find_file_head d' path ≡ none)
        × ((other : Name) (j : ℕ)
            → is_head_of d' other j ≡ (if has j xs then false else is_head_of d other j))
  unfolding aofs_delete_file
  aofs_delete_file-FreesAll d path i xs v found c only =
      let bound = length-DistinctBelow block_num xs (Chain-DistinctBelow c) in
      let (d', run, f) = delete_chain-FreesAll e (block_num + 2) c v (omega arith) in
      (
        d',
        rw (found, run) refl,
        f,
        find_unique d' path none (λ j a l. heads_left d d' xs path j f ∙ gone xs path d j only),
        λ other j. heads_left d d' xs other j f,
      )

  -- Deleting a file that does not exist returns -ENOENT and leaves the image as it is.
  pub aofs_delete_file_missing :
      (d : Disk) (path : Name)
      → aofs_find_file_head d path ≡ none
      → aofs_delete_file e path d ≡ done enoent d
  unfolding aofs_delete_file
  aofs_delete_file_missing d path h = rw h refl
