-- ===== src/Vm/Free.antt =====
-- asgn3/vm/vm_page.c: how a page is freed, held, wired, and advised about.
use free_bsd_messaround.Prelude.{
  ℕ, ◌+◌, ◌-◌, ◌^◌, ◌%◌, Bool, true, false, ◌&&◌, not, Option, none, some, List, [], ◌∷◌, ltb, ◌==◌,
  if◌then◌else◌, erase, update, ℤ, pos, negsuc, ◌+ℤ◌,
}
use free_bsd_messaround.Vm.{
  VmObject, frees, empties_slot, drops, wakes, resets_memattr, wakes_free, wakes_daemon,
  wakes_zero_idle, Memory, Kernel, pq_none, vpb_unbusied, vpb_single_exclusiver, ◌>>=◌, ◌>>◌,
  kassert, with_page, calls, vm_page_sbusied, vm_page_xbusied,
}
use free_bsd_messaround.Vm.Queue.{vm_page_dequeue_locked, vm_page_dequeue}

-- The word becomes unbusied; who waits is woken, unless the word says that nobody does.
unfoldable pub vm_page_xunbusy_maybelocked : Memory → ℕ → Memory
vm_page_xunbusy_maybelocked s m =
    let p = s.pages m in
    let off = with_page s m (record p { busy_lock = vpb_unbusied }) in
    if p.busy_lock == vpb_single_exclusiver then off else calls off (wakes m)

unfoldable pub with_object : Memory → ℕ → VmObject → Memory
with_object s o v = record s { objects = update s.objects o v }

-- The object's tree, list and count lose the page.
unfoldable pub forget_page : Memory → ℕ → ℕ → Memory
unfolding with_object
forget_page s m o =
    let v = s.objects o in
    with_object (calls s (empties_slot m)) o
      (record v { memq = erase m v.memq; resident_page_count = v.resident_page_count +ℤ negsuc 0 })

abbrev pub is_zero_ℤ : ℤ → Bool
is_zero_ℤ (pos n) = n == 0
is_zero_ℤ (negsuc n) = false

-- The vnode of an object without pages may be recycled.
unfoldable pub drop_empty : Memory → ℕ → Memory
drop_empty s o =
    if is_zero_ℤ (s.objects o).resident_page_count && (s.objects o).vnode
    then calls s (drops o)
    else s

-- The page leaves its object o.
unfoldable pub leave_object : Memory → ℕ → ℕ → Memory
leave_object s m o =
    let left = drop_empty (forget_page s m o) o in
    with_page left m (record (left.pages m) { object = none })

unfoldable pub remove_from : Memory → ℕ → Option ℕ → Memory
unfolding vm_page_xbusied
remove_from s m none = s
remove_from s m (some o) =
    leave_object (if vm_page_xbusied (s.pages m) then vm_page_xunbusy_maybelocked s m else s) m o

unfoldable pub vm_page_remove : Memory → ℕ → Memory
vm_page_remove s m = remove_from s m (s.pages m).object

-- hold_count has 16 bits.
unfoldable pub vm_page_hold : Memory → ℕ → Memory
vm_page_hold s m =
    with_page s m (record (s.pages m) { hold_count = ((s.pages m).hold_count + 1) % 2 ^ 16 })

unfoldable pub one_hold_less : Memory → ℕ → Memory
one_hold_less s m = with_page s m (record (s.pages m) { hold_count = (s.pages m).hold_count - 1 })

module _ (k : Kernel) where
  -- What vm_page_free_prep does with a page whose bits are cleared.
  unfoldable pub release_clean : Memory → ℕ → Option (Memory × Bool)
  release_clean s m =
      let p = s.pages m in
      if not (p.wire_count == 0)
      then none
      else if not (p.hold_count == 0)
      then (do
        kassert (not p.unholdfree)
        some (with_page s m (record p { zeroed = false; unholdfree = true }), false))
      else if k.has_memattr s.events m
      then some (calls s (resets_memattr m), true)
      else some (s, true)

  -- The end of vm_page_free_prep: a held page is left for the last vm_page_unhold.
  unfoldable pub release : Memory → ℕ → Option (Memory × Bool)
  release s m = release_clean (with_page s m (record (s.pages m) { valid = 0; dirty = 0 })) m

  -- The page leaves its queue, whose lock is held or not.
  unfoldable pub unqueue : Memory → ℕ → Bool → Option Memory
  unqueue s m pagequeue_locked =
      if not ((s.pages m).queue == pq_none)
      then (if pagequeue_locked then some (vm_page_dequeue_locked k s m) else vm_page_dequeue k s m)
      else some s

  -- Then its object; a fictitious page is not released.
  unfoldable pub detach : Memory → ℕ → Option (Memory × Bool)
  detach s m =
      let gone = vm_page_remove s m in
      if (gone.pages m).fictitious then some (gone, false) else release gone m

  -- Whether a page may be freed: a managed one must not be mapped, another not be queued.
  unfoldable pub may_free : Memory → ℕ → Bool
  may_free s m =
      if not (s.pages m).unmanaged
      then not (k.pmap_page_is_mapped s.events m)
      else (s.pages m).queue == pq_none

  -- Whether the caller may return the page to the free list, which it may not do with a page that
  -- is fictitious or held.
  unfoldable pub vm_page_free_prep : Memory → ℕ → Bool → Option (Memory × Bool)
  vm_page_free_prep s m pagequeue_locked = do
    kassert (may_free s m)
    kassert (not (vm_page_sbusied (s.pages m)))
    s1 ← unqueue s m pagequeue_locked
    detach s1 m

  -- The page goes to the physical allocator; vm_page_zero_count counts those that are zero.
  unfoldable pub vm_page_free_phys : Memory → ℕ → Memory
  vm_page_free_phys s m =
      let freed = calls s (frees m) in
      if (freed.pages m).zeroed
      then record freed { vm_page_zero_count = (freed.vm_page_zero_count + 1) % 2 ^ 32 }
      else calls freed wakes_zero_idle

  unfoldable pub wake_daemon : Memory → Memory
  wake_daemon s =
      if s.vm_pageout_pages_needed && k.enough_for_pageout s.events
      then record (calls s wakes_daemon) { vm_pageout_pages_needed = false }
      else s

  unfoldable pub wake_waiters : Memory → Memory
  wake_waiters s =
      if s.vm_pages_needed && not (k.vm_page_count_min s.events)
      then calls (record s { vm_pages_needed = false }) wakes_free
      else s

  -- Wakes the page daemon and the threads that wait for free pages, each if there are enough.
  unfoldable pub vm_page_free_wakeup : Memory → Memory
  vm_page_free_wakeup s = wake_waiters (wake_daemon s)

  unfoldable pub free_each : Memory → List ℕ → Memory
  free_each s [] = s
  free_each s (m ∷ ms) = free_each (vm_page_free_phys s m) ms

  unfoldable pub vm_page_free_phys_pglist : Memory → List ℕ → Memory
  vm_page_free_phys_pglist s [] = s
  vm_page_free_phys_pglist s (m ∷ ms) = vm_page_free_wakeup (free_each s (m ∷ ms))

  unfoldable pub free_prepared : ℕ → Memory × Bool → Memory
  free_prepared m (s, true) = vm_page_free_wakeup (vm_page_free_phys s m)
  free_prepared m (s, false) = s

  unfoldable pub vm_page_free_toq : Memory → ℕ → Option Memory
  vm_page_free_toq s m = do r ← vm_page_free_prep s m false; some (free_prepared m r)

  unfoldable pub vm_page_free : Memory → ℕ → Option Memory
  vm_page_free s m = vm_page_free_toq (with_page s m (record (s.pages m) { zeroed = false })) m

  unfoldable pub vm_page_unhold : Memory → ℕ → Option Memory
  vm_page_unhold s m = do
    kassert (ltb 0 (s.pages m).hold_count)
    let s1 = one_hold_less s m
    (if (s1.pages m).hold_count == 0 && (s1.pages m).unholdfree
        then vm_page_free_toq s1 m
        else some s1)
