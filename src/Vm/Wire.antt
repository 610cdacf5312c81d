-- ===== src/Vm/Wire.antt =====
-- asgn3/vm/vm_page.c: wiring, and the requests to free a page or to move it by advice.
use free_bsd_messaround.Prelude.{
  ℕ, ◌+◌, ◌-◌, ◌^◌, ◌%◌, Bool, true, false, ◌&&◌, ◌||◌, not, Option, none, some, ltb, ◌==◌,
  if◌then◌else◌,
}
use free_bsd_messaround.Vm.{
  removes_all, Memory, Kernel, pq_none, pq_count, vm_page_bits_all, ◌>>=◌, ◌>>◌, kassert, with_page,
  calls, has_bit, vpb_bit_waiters, vm_page_busied, vm_page_xbusied,
}
use free_bsd_messaround.Vm.Queue.{
  vm_page_remque, vm_page_enqueue, vm_page_activate, vm_page_deactivate, vm_page_deactivate_noreuse,
  vm_page_launder,
}
use free_bsd_messaround.Vm.Free.{vm_page_free, vm_page_xunbusy_maybelocked}

-- vm_page_dirty, with the KASSERT of vm_page_dirty_KBI.
unfoldable pub vm_page_dirty : Memory → ℕ → Option Memory
vm_page_dirty s m = do
  kassert ((s.pages m).valid == vm_page_bits_all)
  some (with_page s m (record (s.pages m) { dirty = vm_page_bits_all }))

-- m->object != NULL
unfoldable pub has_object : Option ℕ → Bool
has_object (some o) = true
has_object none = false

unfoldable pub count_wired : Memory → Memory
count_wired s = record s { v_wire_count = (s.v_wire_count + 1) % 2 ^ 32 }

unfoldable pub count_unwired : Memory → Memory
count_unwired s = record s { v_wire_count = (s.v_wire_count + (2 ^ 32 - 1)) % 2 ^ 32 }

-- m->wire_count--
unfoldable pub one_wiring_less : Memory → ℕ → Memory
one_wiring_less s m = with_page s m (record (s.pages m) { wire_count = (s.pages m).wire_count - 1 })

module _ (k : Kernel) where
  -- The page is unqueued and counted with its first wiring.
  unfoldable pub first_wiring : Memory → ℕ → Option Memory
  first_wiring s m = do
    kassert (not (s.pages m).unmanaged || (s.pages m).queue == pq_none)
    off ← vm_page_remque k s m
    some (count_wired off)

  -- m->wire_count++, and it must not overflow.
  unfoldable pub add_wiring : Memory → ℕ → Option Memory
  add_wiring s m = do
    let wired = ((s.pages m).wire_count + 1) % 2 ^ 32
    kassert (not (wired == 0))
    some (with_page s m (record (s.pages m) { wire_count = wired }))

  unfoldable pub vm_page_wire : Memory → ℕ → Option Memory
  vm_page_wire s m =
      if (s.pages m).fictitious then (do kassert ((s.pages m).wire_count == 1); some s) else do
        s1 ← (if (s.pages m).wire_count == 0 then first_wiring s m else some s)
        add_wiring s1 m

  -- What vm_page_unwire does with the last wiring of a page.
  unfoldable pub last_wiring : ℕ → Memory → ℕ → Option (Memory × Bool)
  last_wiring queue s m =
      let fewer = count_unwired s in
      if not (s.pages m).unmanaged && has_object (s.pages m).object && not (queue == pq_none)
      then (do on ← vm_page_enqueue k queue fewer m; some (on, true))
      else some (fewer, true)

  -- vm_page_unwire of a queue that exists.
  unfoldable pub unwire_known : ℕ → Memory → ℕ → Option (Memory × Bool)
  unwire_known queue s m =
      let p = s.pages m in
      if p.fictitious
      then (do kassert (p.wire_count == 1); some (s, false))
      else if p.wire_count == 0
      then none
      else (let fewer = one_wiring_less s m in
          if (fewer.pages m).wire_count == 0
          then last_wiring queue fewer m
          else some (fewer, false))

  unfoldable pub vm_page_unwire : ℕ → Memory → ℕ → Option (Memory × Bool)
  vm_page_unwire queue s m = do
    kassert (ltb queue pq_count || queue == pq_none)
    unwire_known queue s m

  -- Removing the mappings of a page tells whether one of them modified it.
  unfoldable pub pmap_remove_all : Memory → ℕ → Option Memory
  pmap_remove_all s m =
      let seen = k.pmap_is_modified s.events m in
      let gone = calls s (removes_all m) in if seen then vm_page_dirty gone m else some gone

  -- Whether an object, if there is one, is in use.
  unfoldable pub in_use : Memory → Option ℕ → Bool
  in_use s none = false
  in_use s (some o) = not ((s.objects o).ref_count == 0)

  unfoldable pub vm_page_try_to_free : Memory → ℕ → Option (Memory × Bool)
  vm_page_try_to_free s m =
      let p = s.pages m in
      if not (p.dirty == 0)
        || not (p.hold_count == 0)
        || not (p.wire_count == 0)
        || p.unmanaged
        || vm_page_busied p
      then some (s, false)
      else do
        s1 ← (if in_use s p.object then pmap_remove_all s m else some s)
        (if in_use s p.object && not ((s1.pages m).dirty == 0)
            then some (s1, false)
            else (do s2 ← vm_page_free k s1 m; some (s2, true)))

  pub data Advice : Type 0 where
    madv_free madv_dontneed madv_willneed other : Advice

  -- The second half of vm_page_advise, after what madv_free does first.
  unfoldable pub give_up : Bool → Memory → ℕ → Option Memory
  give_up freeing s m = do
    let unseen = with_page s m (record (s.pages m) { referenced = false })
    let found = not freeing && (unseen.pages m).dirty == 0 && k.pmap_is_modified unseen.events m
    s1 ← (if found then vm_page_dirty unseen m else some unseen)
    (if (s1.pages m).dirty == 0 then vm_page_deactivate_noreuse k s1 m else vm_page_launder k s1 m)

  unfoldable pub vm_page_advise : Memory → ℕ → Advice → Option Memory
  vm_page_advise s m madv_free = give_up true (with_page s m (record (s.pages m) { dirty = 0 })) m
  vm_page_advise s m madv_dontneed = give_up false s m
  vm_page_advise s m madv_willneed = vm_page_activate k s m
  vm_page_advise s m other = some s

  unfoldable pub vm_page_readahead_finish : Memory → ℕ → Option Memory
  vm_page_readahead_finish s m = do
    kassert (not ((s.pages m).valid == 0))
    s1 ←
        (if has_bit (s.pages m).busy_lock vpb_bit_waiters
          then vm_page_activate k s m
          else vm_page_deactivate k s m)
    kassert (vm_page_xbusied (s1.pages m))
    some (vm_page_xunbusy_maybelocked s1 m)
