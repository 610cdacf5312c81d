-- ===== src/Vm/Lists.antt =====
-- Lists of pages: how often a page stands in one, how many of them are no markers, and whether their
-- birthdays rise.
use free_bsd_messaround.Prelude.{
  ℕ, suc, ◌+◌, ◌-◌, ◌≤◌, ◌<◌, ◌≡◌, ◌≢◌, refl, sym, false, List, [], ◌∷◌, ◌++◌, ◌==◌, if◌then◌else◌,
  count, erase, arith, Bool-cases, inl, inr, ==_iff,
}
use free_bsd_messaround.Vm.{Page}

pub count-erase :
    (x m : ℕ) (xs : List ℕ) → count x (erase m xs) ≡ (if x == m then count x xs - 1 else count x xs)
count-erase x m [] = ground arith
count-erase x m (y ∷ xs) = ground (arith, count-erase x m xs)

pub count_snoc :
    (x m : ℕ) (xs : List ℕ) → count x (xs ++ (m ∷ [])) ≡ count x xs + (if x == m then 1 else 0)
count_snoc x m [] = ground arith
count_snoc x m (y ∷ xs) = ground (arith, count_snoc x m xs)

-- The number of pages in a list that are no markers.
unfoldable pub real_pages : (ℕ → Page) → List ℕ → ℕ
real_pages pages [] = 0
real_pages pages (x ∷ xs) = (if (pages x).marker then 0 else 1) + real_pages pages xs

module _ (pages : ℕ → Page) where
  pub real_pages-erase :
      (m : ℕ) (xs : List ℕ)
      → (pages m).marker ≡ false
      → 0 < count m xs
      → suc (real_pages pages (erase m xs)) ≡ real_pages pages xs
  unfolding real_pages
  real_pages-erase m [] h l = absurd (omega arith)
  real_pages-erase m (y ∷ xs) h l = elim (Bool-cases (m == y)) [
    | inl e ↦ let q : m ≡ y = (==_iff m y).0 e in rw (e, sym q, h) (omega arith)
    | inr e ↦ ground (arith, real_pages-erase m xs h)
  ]

  pub real_pages_snoc :
      (m : ℕ) (xs : List ℕ)
      → (pages m).marker ≡ false
      → real_pages pages (xs ++ (m ∷ [])) ≡ suc (real_pages pages xs)
  unfolding real_pages
  real_pages_snoc m [] h = rw h refl
  real_pages_snoc m (y ∷ xs) h = ground (arith, real_pages_snoc m xs h)

  -- The least birthday of what follows a page.
  abbrev pub after : ℕ → ℕ → ℕ
  after low x = if (pages x).marker then low else suc (pages x).id

  -- The birthdays of the real pages rise along the list, from `low` on and below `high`.
  unfoldable pub Rises : ℕ → List ℕ → ℕ → Type 0
  Rises low [] high = low ≤ high
  Rises low (x ∷ xs) high =
      ((pages x).marker ≡ false → low ≤ (pages x).id) × Rises (after low x) xs high

  pub Rises-weaken :
      (low low' : ℕ) (xs : List ℕ) (high : ℕ) → low ≤ low' → Rises low' xs high → Rises low xs high
  unfolding Rises
  Rises-weaken low low' [] high l h = omega arith
  Rises-weaken low low' (x ∷ xs) high l (first, others) = (
    λ n. omega (arith, first n),
    Rises-weaken (after low x) (after low' x) xs high (ground arith) others,
  )

  pub Rises-erase :
      (low : ℕ) (m : ℕ) (xs : List ℕ) (high : ℕ) → Rises low xs high → Rises low (erase m xs) high
  unfolding Rises
  Rises-erase low m [] high h = h
  Rises-erase low m (x ∷ xs) high (first, others) = elim (Bool-cases (m == x)) [
    | inl e ↦ rw e (Rises-weaken low (after low x) xs high (ground (arith, first)) others)
    | inr e ↦ rw e (first, Rises-erase (after low x) m xs high others)
  ]

  pub Rises-snoc :
      (low : ℕ) (m : ℕ) (xs : List ℕ) (high : ℕ)
      → (pages m).id ≡ high
      → Rises low xs high
      → Rises low (xs ++ (m ∷ [])) (suc high)
  unfolding Rises
  Rises-snoc low m [] high e h = (λ n. rw e h, ground arith)
  Rises-snoc low m (x ∷ xs) high e (first, others) =
      (first, Rises-snoc (after low x) m xs high e others)

-- Pages agree on what the lists read of them.
pub record Alike (p p' : Page) : Type 0 where
  pub same_marker : p'.marker ≡ p.marker
  pub same_id : p'.id ≡ p.id

-- What rises still rises after changes to pages that are not in the list.
pub Rises-away :
    (pages pages' : ℕ → Page) (m low : ℕ) (xs : List ℕ) (high : ℕ)
    → ((x : ℕ) → x ≢ m → Alike (pages x) (pages' x))
    → count m xs ≡ 0
    → Rises pages low xs high
    → Rises pages' low xs high
unfolding Rises
Rises-away pages pages' m low [] high same none_here h = h
Rises-away pages pages' m low (x ∷ xs) high same none_here (first, others) =
    let a = same x (λ e. ground (arith, e)) in
    rw (a.same_marker, a.same_id)
      (first, Rises-away pages pages' m (after pages low x) xs high same (ground arith) others)

pub real_pages-alike :
    (pages pages' : ℕ → Page) (xs : List ℕ)
    → ((x : ℕ) → (pages' x).marker ≡ (pages x).marker)
    → real_pages pages' xs ≡ real_pages pages xs
unfolding real_pages
real_pages-alike pages pages' [] same = refl
real_pages-alike pages pages' (x ∷ xs) same =
    ground (arith, same x, real_pages-alike pages pages' xs same)

pub Rises-higher :
    (pages : ℕ → Page) (low : ℕ) (xs : List ℕ) (high high' : ℕ)
    → high ≤ high'
    → Rises pages low xs high
    → Rises pages low xs high'
unfolding Rises
Rises-higher pages low [] high high' l h = omega arith
Rises-higher pages low (x ∷ xs) high high' l (first, others) =
    (first, Rises-higher pages (after pages low x) xs high high' l others)

-- Only birthdays and marks matter.
pub Rises-Alike :
    (pages pages' : ℕ → Page) (low : ℕ) (xs : List ℕ) (high : ℕ)
    → ((x : ℕ) → Alike (pages x) (pages' x))
    → Rises pages low xs high
    → Rises pages' low xs high
unfolding Rises
Rises-Alike pages pages' low [] high same h = h
Rises-Alike pages pages' low (x ∷ xs) high same (first, others) =
    rw ((same x).same_marker, (same x).same_id)
      (first, Rises-Alike pages pages' (after pages low x) xs high same others)
