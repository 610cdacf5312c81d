-- ===== src/Vm/Pageout/Lists.antt =====
-- TAILQ_NEXT, TAILQ_INSERT_AFTER and TAILQ_REMOVE at a page whose place in the list is known.
use free_bsd_messaround.Prelude.{
  ℕ, ◌+◌, ◌≡◌, refl, false, List, [], ◌∷◌, ◌++◌, ◌==◌, count, erase, arith, ==_self, ap,
}
use free_bsd_messaround.Vm.Pageout.{tailq_first, tailq_next, insert_after}

other : (m x : ℕ) (xs : List ℕ) → count m (x ∷ xs) ≡ 0 → m == x ≡ false
other m x xs h = ground arith

others : (m x : ℕ) (xs : List ℕ) → count m (x ∷ xs) ≡ 0 → count m xs ≡ 0
others m x xs h = ground arith

pub count_append : (m : ℕ) (xs ys : List ℕ) → count m (xs ++ ys) ≡ count m xs + count m ys
count_append m [] ys = ground arith
count_append m (x ∷ xs) ys = ground (arith, count_append m xs ys)

module _ (m : ℕ) (post : List ℕ) where
  pub tailq_next_at :
      (pre : List ℕ) → count m pre ≡ 0 → tailq_next m (pre ++ (m ∷ post)) ≡ tailq_first post
  unfolding tailq_next
  tailq_next_at [] h = rw (==_self m) refl
  tailq_next_at (x ∷ pre) h = rw (other m x pre h) (tailq_next_at pre (others m x pre h))

  pub erase_at : (pre : List ℕ) → count m pre ≡ 0 → erase m (pre ++ (m ∷ post)) ≡ pre ++ post
  erase_at [] h = rw (==_self m) refl
  erase_at (x ∷ pre) h = rw (other m x pre h, erase_at pre (others m x pre h)) refl

  pub insert_after_at :
      (new : ℕ) (pre : List ℕ)
      → count m pre ≡ 0
      → insert_after m new (pre ++ (m ∷ post)) ≡ pre ++ (m ∷ new ∷ post)
  unfolding insert_after
  insert_after_at new [] h = rw (==_self m) refl
  insert_after_at new (x ∷ pre) h =
      rw (other m x pre h, insert_after_at new pre (others m x pre h)) refl

-- A list with a page moved over the border between its two parts.
pub append_step :
    (pre : List ℕ) (m : ℕ) (post : List ℕ) → (pre ++ (m ∷ [])) ++ post ≡ pre ++ (m ∷ post)
append_step [] m post = refl
append_step (x ∷ pre) m post = ap (λ (xs : List ℕ). x ∷ xs) (append_step pre m post)
