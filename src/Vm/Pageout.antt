-- ===== src/Vm/Pageout.antt =====
-- asgn3/vm/vm_pageout.c: the scan of the inactive queue. No other thread runs meanwhile, so every
-- page lock and object lock is taken at once; the statistics of each processor are left out.
pub mod Count
pub mod Lists
pub mod Take
pub mod Cursor
use free_bsd_messaround.Prelude.{
  ℕ, zero, suc, ◌+◌, ◌^◌, ◌%◌, Bool, true, false, ◌&&◌, ◌||◌, not, Option, none, some, List, [],
  ◌∷◌, ◌==◌, if◌then◌else◌, erase, ℤ, pos, negsuc, ◌+ℤ◌, ltb_ℤ, pos_part,
}
use free_bsd_messaround.Vm.{
  Page, PageQueue, VmObject, Memory, Kernel, pq_inactive, vm_page_bits_all, ◌>>=◌, ◌>>◌, kassert,
  with_queue, vm_page_busied,
}
use free_bsd_messaround.Vm.Queue.{vm_page_dequeue_locked, vm_page_launder}
use free_bsd_messaround.Vm.Free.{vm_page_free}
use free_bsd_messaround.Vm.Wire.{vm_page_dirty, pmap_remove_all}

-- Whether the counting loop counts a page.
unfoldable pub counts : Page → Bool
counts p = not p.marker && p.hold_count == 0 && not (vm_page_busied p)

-- if (!front) front = m
unfoldable pub or_front : Option ℕ → ℕ → Option ℕ
or_front none m = some m
or_front (some f) m = some f

-- if (next == NULL) back = m
unfoldable pub if_last : List ℕ → ℕ → Option ℕ → Option ℕ
if_last [] m back = some m
if_last (x ∷ xs) m back = back

-- The counting loop: front, back and num_pgs. A pointer is none if it is NULL or was not set.
unfoldable pub count_loop : (ℕ → Page) → List ℕ → Option ℕ → Option ℕ → ℕ → Option ℕ × Option ℕ × ℕ
count_loop pages [] front back num = (front, back, num)
count_loop pages (m ∷ next) front back num =
    let passed = count_loop pages next front back num in
    let counted =
      count_loop pages next (or_front front m) (if_last next m back) ((num + 1) % 2 ^ 64) in
    if counts (pages m) then counted else passed

-- What printf prints of the three, which reads the birthdays through the two pointers; none if one
-- of them points nowhere.
unfoldable pub birthdays : (ℕ → Page) → Option ℕ × Option ℕ × ℕ → Option (ℕ × ℕ × ℕ)
birthdays pages (some f, some b, num) = some (num, (pages f).id, (pages b).id)
birthdays pages (some f, none, num) = none
birthdays pages (none, b, num) = none

unfoldable pub new_page_line : Memory → ℕ → Option (ℕ × ℕ × ℕ)
new_page_line s d =
    birthdays s.pages (count_loop s.pages (s.vm_dom d pq_inactive).pq_pl none none 0)

-- TAILQ_FIRST, TAILQ_NEXT and TAILQ_INSERT_AFTER.
unfoldable pub tailq_first : List ℕ → Option ℕ
tailq_first [] = none
tailq_first (x ∷ xs) = some x

unfoldable pub tailq_next : ℕ → List ℕ → Option ℕ
tailq_next m [] = none
tailq_next m (x ∷ xs) = if m == x then tailq_first xs else tailq_next m xs

unfoldable pub insert_after : ℕ → ℕ → List ℕ → List ℕ
insert_after m new [] = []
insert_after m new (x ∷ xs) = if m == x then x ∷ new ∷ xs else x ∷ insert_after m new xs

-- The list of the inactive queue of a domain, and a new one for it.
abbrev pub inactive : Memory → ℕ → List ℕ
inactive s d = (s.vm_dom d pq_inactive).pq_pl

unfoldable pub with_inactive : Memory → ℕ → List ℕ → Memory
with_inactive s d pl = with_queue s d pq_inactive (record (s.vm_dom d pq_inactive) { pq_pl = pl })

-- One page fewer is short if the page was freed.
abbrev pub still_short : ℤ → Bool → ℤ
still_short page_shortage freed = if freed then page_shortage +ℤ negsuc 0 else page_shortage

-- What the scan asserts of a page that is no marker.
unfoldable pub fit : Page → Bool
fit p = not p.fictitious && not p.unmanaged

module _ (k : Kernel) where
  unfoldable pub vm_page_test_dirty : Memory → ℕ → Option Memory
  vm_page_test_dirty s m =
      if not ((s.pages m).dirty == vm_page_bits_all) && k.pmap_is_modified s.events m
      then vm_page_dirty s m
      else some s

  -- The mappings of a clean page of an object that is in use go, which may find it dirty.
  unfoldable pub unmap : Memory → ℕ → VmObject → Option Memory
  unmap s m object =
      if not (object.ref_count == 0)
      then (do
        s1 ← vm_page_test_dirty s m
        (if (s1.pages m).dirty == 0 then pmap_remove_all k s1 m else some s1))
      else some s

  -- A clean page is freed, which the result tells; a dirty one goes to the laundry unless its
  -- object is dead.
  unfoldable pub free_or_launder : Memory → ℕ → VmObject → Option (Memory × Bool)
  free_or_launder s m object =
      if (s.pages m).dirty == 0
      then (do s1 ← vm_page_free k s m; some (s1, true))
      else if not object.dead
      then (do s1 ← vm_page_launder k s m; some (s1, false))
      else some (s, false)

  -- What the scan does with a page that it has taken off the queue; every such page has an object.
  unfoldable pub dispose : Memory → ℕ → Option ℕ → Option (Memory × Bool)
  dispose s m none = none
  dispose s m (some o) =
      if (s.pages m).valid == 0
      then (do s1 ← vm_page_free k s m; some (s1, true))
      else (do s1 ← unmap s m (s.objects o); free_or_launder s1 m (s1.objects o))

  -- The page leaves the queue of domain d, with the marker in its place until it is disposed of:
  -- the memory, whether the page was freed, and the page after the marker.
  unfoldable pub take_page : ℕ → ℕ → Memory → ℕ → Option (Memory × Bool × Option ℕ)
  take_page marker d s m = do
    let marked = with_inactive s d (insert_after m marker (inactive s d))
    r ← dispose (vm_page_dequeue_locked k marked m) m (s.pages m).object
    let next = tailq_next marker (inactive r.0 d)
    some (with_inactive r.0 d (erase marker (inactive r.0 d)), r.1, next)

  -- The freeing loop, with maxscan pages to go, at a page or at the end of the queue.
  unfoldable pub scan_loop : ℕ → ℕ → ℕ → Memory → Option ℕ → ℤ → Option (Memory × ℤ)
  scan_loop marker d maxscan s none page_shortage = some (s, page_shortage)
  scan_loop marker d zero s (some m) page_shortage = some (s, page_shortage)
  scan_loop marker d (suc maxscan) s (some m) page_shortage =
      let skip = scan_loop marker d maxscan s (tailq_next m (inactive s d)) page_shortage in
      let take = (do
        r ← take_page marker d s m
        scan_loop marker d maxscan r.0 r.2 (still_short page_shortage r.1)) in
      if not (ltb_ℤ (pos 0) page_shortage)
      then some (s, page_shortage)
      else if not ((s.pages m).queue == pq_inactive)
      then none
      else if (s.pages m).marker
      then skip
      else if not (fit (s.pages m))
      then none
      else if not ((s.pages m).hold_count == 0) || vm_page_busied (s.pages m)
      then skip
      else take

  -- vm_pageout_scan's two loops over the inactive queue of a domain, and whether it met its target.
  unfoldable pub scan_inactive : ℕ → ℕ → Memory → ℤ → Option (Memory × ℤ)
  scan_inactive marker d s page_shortage =
      scan_loop marker d (pos_part (s.vm_dom d pq_inactive).pq_cnt) s (tailq_first (inactive s d))
        page_shortage
