-- ===== src/Vm/Pageout/Cursor.antt =====
-- The freeing loop of vm_pageout_scan walks the queue as it stood when the scan began, although its
-- cursor is found again after each page that was taken by a marker in the changed queue.
use free_bsd_messaround.Prelude.{
  ℕ, zero, suc, ◌+◌, ◌<◌, ◌≤◌, ◌≡◌, refl, sym, ap, ◌∙◌, inl, inr, Bool, false, ◌||◌, not, Option,
  none, some, List, [], ◌∷◌, ◌++◌, ◌==◌, if◌then◌else◌, count, arith, Bool-cases, ==_iff, ℤ, pos,
  ltb_ℤ, pos_part,
}
use free_bsd_messaround.Vm.{Memory, Kernel, pq_inactive, vm_page_busied, ◌>>=◌}
use free_bsd_messaround.Vm.Valid.{IsValid}
use free_bsd_messaround.Vm.Outcome.{Ensures-same}
use free_bsd_messaround.Vm.Pageout.{
  inactive, tailq_first, tailq_next, take_page, still_short, fit, scan_loop, scan_inactive,
}
use free_bsd_messaround.Vm.Pageout.Lists.{tailq_next_at, append_step, count_append}
use free_bsd_messaround.Vm.Pageout.Take.{Listed, take_page-Listed}

module _ (k : Kernel) (marker d : ℕ) where
  -- The pages of a list, one after the other, until the target is met or maxscan are passed.
  unfoldable pub walk_list : ℕ → Memory → List ℕ → ℤ → Option (Memory × ℤ)
  walk_list maxscan s [] page_shortage = some (s, page_shortage)
  walk_list zero s (m ∷ xs) page_shortage = some (s, page_shortage)
  walk_list (suc maxscan) s (m ∷ xs) page_shortage =
      let skip = walk_list maxscan s xs page_shortage in
      let take = (do
        r ← take_page k marker d s m
        walk_list maxscan r.0 xs (still_short page_shortage r.1)) in
      if not (ltb_ℤ (pos 0) page_shortage)
      then some (s, page_shortage)
      else if not ((s.pages m).queue == pq_inactive)
      then none
      else if (s.pages m).marker
      then skip
      else if not (fit (s.pages m))
      then none
      else if not ((s.pages m).hold_count == 0) || vm_page_busied (s.pages m)
      then skip
      else take

  -- The scan has passed pre and has xs before it.
  record Place (s : Memory) (pre xs : List ℕ) : Type 0 where
    pub lists : inactive s d ≡ pre ++ xs
    pub distinct : (x : ℕ) → count x pre + count x xs ≤ 1
    pub absent : count marker pre + count marker xs ≡ 0
    pub homed :
        (x : ℕ) → (s.pages x).marker ≡ false → 0 < count x pre + count x xs → k.vm_phys_domain x ≡ d

  skipped :
      (s : Memory) (pre xs : List ℕ) (m : ℕ) → Place s pre (m ∷ xs) → Place s (pre ++ (m ∷ [])) xs
  skipped s pre xs m p = record {
    lists = p.lists ∙ sym (append_step pre m xs);
    distinct = λ x. ground (arith, p.distinct x, count_append x pre (m ∷ []));
    absent = ground (arith, p.absent, count_append marker pre (m ∷ []));
    homed = λ x r l. p.homed x r (ground (arith, l, count_append x pre (m ∷ [])));
  }

  next-Place :
      (s : Memory) (pre xs : List ℕ) (m : ℕ)
      → Place s pre (m ∷ xs)
      → tailq_next m (inactive s d) ≡ tailq_first xs
  next-Place s pre xs m p =
      ap (tailq_next m) p.lists ∙ tailq_next_at m xs pre (ground (arith, p.distinct m))

  taken :
      (s s' : Memory) (pre xs : List ℕ) (m : ℕ)
      → Place s pre (m ∷ xs)
      → Listed d s s' (pre ++ xs)
      → Place s' pre xs
  taken s s' pre xs m p l = record {
    lists = l.lists;
    distinct = λ x. ground (arith, p.distinct x);
    absent = ground (arith, p.absent);
    homed = λ x r o. p.homed x (sym (l.marks x) ∙ r) (ground (arith, o));
  }

  -- A page of the queue that is no marker is taken with the same outcome by both.
  taken_alike :
      (maxscan : ℕ) (s : Memory) (pre xs : List ℕ) (m : ℕ) (page_shortage : ℤ)
      → Place s pre (m ∷ xs)
      → (s.pages m).queue ≡ pq_inactive
      → (s.pages m).marker ≡ false
      → ((t : Memory) (sh : ℤ)
          → Place t pre xs
          → scan_loop k marker d maxscan t (tailq_first xs) sh ≡ walk_list maxscan t xs sh)
      → (take_page k marker d s m
          >>= (λ r. scan_loop k marker d maxscan r.0 r.2 (still_short page_shortage r.1)))
        ≡ (take_page k marker d s m
            >>= (λ r. walk_list maxscan r.0 xs (still_short page_shortage r.1)))
  taken_alike maxscan s pre xs m page_shortage p on real same =
      Ensures-same
        (λ (r : Memory × Bool × Option ℕ). Listed d s r.0 (pre ++ xs) × (r.2 ≡ tailq_first xs))
        (take_page k marker d s m)
        (λ r. scan_loop k marker d maxscan r.0 r.2 (still_short page_shortage r.1))
        (λ r. walk_list maxscan r.0 xs (still_short page_shortage r.1))
        (take_page-Listed k marker d s m pre xs p.lists (ground (arith, p.distinct m))
          (ground (arith, p.absent)) (ground (arith, p.absent)) on (p.homed m real (ground arith)))
        (λ r l. rw l.1 (same r.0 (still_short page_shortage r.1) (taken s r.0 pre xs m p l.0)))

  scan_loop-walk_list :
      (maxscan : ℕ) (s : Memory) (pre xs : List ℕ) (page_shortage : ℤ)
      → Place s pre xs
      → scan_loop k marker d maxscan s (tailq_first xs) page_shortage
        ≡ walk_list maxscan s xs page_shortage
  unfolding scan_loop walk_list tailq_first
  scan_loop-walk_list maxscan s pre [] page_shortage p = refl
  scan_loop-walk_list zero s pre (m ∷ xs) page_shortage p = refl
  scan_loop-walk_list (suc maxscan) s pre (m ∷ xs) page_shortage p =
      let skip =
        ap (λ (c : Option ℕ). scan_loop k marker d maxscan s c page_shortage)
          (next-Place s pre xs m p)
        ∙ scan_loop-walk_list maxscan s (pre ++ (m ∷ [])) xs page_shortage (skipped s pre xs m p) in
      elim (Bool-cases ((s.pages m).queue == pq_inactive)) [
        | inr e ↦ rw e refl
        | inl e ↦ elim (Bool-cases (s.pages m).marker) [
          | inl f ↦ rw (e, f, skip) refl
          | inr f ↦
              rw
                (
                  skip,
                  taken_alike maxscan s pre xs m page_shortage p ((==_iff _ pq_inactive).0 e) f
                      (λ t sh q. scan_loop-walk_list maxscan t pre xs sh q),
                )
                refl
        ]
      ]

  -- In a valid memory whose inactive queue of domain d holds no page twice and not the marker, the
  -- scan of that queue does what a walk over the list of its pages as it stood at the start does,
  -- which is in the order of their birthdays: it takes up each page at most once, although the
  -- queue changes under it, and a page that it passes keeps its place.
  pub scan_inactive-walk_list :
      (s : Memory) (page_shortage : ℤ)
      → IsValid k s
      → ((x : ℕ) → count x (inactive s d) ≤ 1)
      → count marker (inactive s d) ≡ 0
      → scan_inactive k marker d s page_shortage
        ≡ walk_list (pos_part (s.vm_dom d pq_inactive).pq_cnt) s (inactive s d) page_shortage
  unfolding scan_inactive
  scan_inactive-walk_list s page_shortage v distinct absent =
      scan_loop-walk_list _ s [] (inactive s d) page_shortage (record {
        lists = refl;
        distinct = λ x. omega (arith, distinct x);
        absent = omega (arith, absent);
        homed = λ x r l. ground (arith, v.placed x d pq_inactive);
      })
