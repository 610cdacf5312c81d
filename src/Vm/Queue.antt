-- ===== src/Vm/Queue.antt =====
-- asgn3/vm/vm_page.c: how a page enters a page queue, leaves it and moves within it.
use free_bsd_messaround.Prelude.{
  ℕ, ◌+◌, ◌^◌, ◌%◌, Bool, true, false, ◌&&◌, not, Option, some, [], ◌∷◌, ◌++◌, ltb, ◌==◌,
  if◌then◌else◌, erase, pos, negsuc,
}
use free_bsd_messaround.Vm.{
  Page, Memory, Kernel, pq_none, pq_inactive, pq_active, pq_laundry, pq_count, ◌>>=◌, ◌>>◌, kassert,
  with_page, with_queue, relink, vm_page_in_laundry,
}

-- ACT_INIT
abbrev pub act_init : ℕ
act_init = 5

-- m->id = pg_cnt++
unfoldable pub give_id : Memory → ℕ → Memory
give_id s m =
    let born = with_page s m (record (s.pages m) { id = s.pg_cnt }) in
    record born { pg_cnt = (s.pg_cnt + 1) % 2 ^ 64 }

-- The page goes to the tail of a queue of a domain.
unfoldable pub insert_tail : Memory → ℕ → ℕ → ℕ → Memory
insert_tail s d q m =
    relink s m (record (s.pages m) { queue = q }) d q ((s.vm_dom d q).pq_pl ++ (m ∷ [])) (pos 1)

-- The queue that a request is for: pages for the active queue are put on the inactive one.
unfoldable pub funnelled : ℕ → ℕ
funnelled queue = if queue == pq_active then pq_inactive else queue

-- Whether the page may be put on a queue: it is neither wired nor unmanaged.
unfoldable pub may_queue : Page → Bool
may_queue p = p.wire_count == 0 && not p.unmanaged

unfoldable pub raise_act_count : Memory → ℕ → Memory
raise_act_count s m =
    let p = s.pages m in
    if ltb p.act_count act_init then with_page s m (record p { act_count = act_init }) else s

module _ (k : Kernel) where
  -- The domain of the queue that the page is on: all laundry pages are on the first domain's.
  unfoldable pub vm_page_pagequeue : Memory → ℕ → ℕ
  unfolding vm_page_in_laundry
  vm_page_pagequeue s m = if vm_page_in_laundry (s.pages m) then 0 else k.vm_phys_domain m

  -- The page leaves the list of the queue with its field set to PQ_NONE.
  unfoldable pub vm_page_dequeue_locked : Memory → ℕ → Memory
  vm_page_dequeue_locked s m =
      let d = vm_page_pagequeue s m in
      let q = (s.pages m).queue in
      relink s m (record (s.pages m) { queue = pq_none }) d q (erase m (s.vm_dom d q).pq_pl)
        (negsuc 0)

  unfoldable pub vm_page_dequeue : Memory → ℕ → Option Memory
  vm_page_dequeue s m = do
    kassert (ltb (s.pages m).queue pq_count)
    some (vm_page_dequeue_locked s m)

  unfoldable pub vm_page_remque : Memory → ℕ → Option Memory
  vm_page_remque s m = if not ((s.pages m).queue == pq_none) then vm_page_dequeue s m else some s

  unfoldable pub vm_page_enqueue : ℕ → Memory → ℕ → Option Memory
  vm_page_enqueue queue s m = do
    kassert (ltb queue pq_count)
    let q = funnelled queue
    let d = if q == pq_laundry then 0 else k.vm_phys_domain m
    some (insert_tail (if q == pq_inactive then give_id s m else s) d q m)

  unfoldable pub vm_page_requeue_locked : Memory → ℕ → Option Memory
  vm_page_requeue_locked s m = do
    kassert (not ((s.pages m).queue == pq_none))
    let d = vm_page_pagequeue s m
    let q = (s.pages m).queue
    let pq = s.vm_dom d q
    some (with_queue s d q (record pq { pq_pl = erase m pq.pq_pl ++ (m ∷ []) }))

  -- The locked and the unlocked variant differ in the lock only.
  unfoldable pub vm_page_requeue : Memory → ℕ → Option Memory
  vm_page_requeue s m = vm_page_requeue_locked s m

  unfoldable pub vm_page_activate : Memory → ℕ → Option Memory
  vm_page_activate s m =
      let queue = (s.pages m).queue in
      if not (queue == pq_active)
      then if may_queue (s.pages m)
        then (do
          let s0 = raise_act_count s m
          s1 ← vm_page_remque s0 m
          vm_page_enqueue pq_inactive s1 m)
        else (do kassert (queue == pq_none); some s)
      else some (raise_act_count s m)

  -- _vm_page_deactivate: with noreuse a page that is inactive already is moved, too.
  unfoldable pub deactivate : Memory → ℕ → Bool → Option Memory
  deactivate s m noreuse =
      let queue = (s.pages m).queue in
      if queue == pq_inactive && not noreuse
      then some s
      else if may_queue (s.pages m)
      then (do
        s1 ←
            (if queue == pq_inactive then some (vm_page_dequeue_locked s m) else vm_page_remque s m)
        some (insert_tail (give_id s1 m) (k.vm_phys_domain m) pq_inactive m))
      else some s

  unfoldable pub vm_page_deactivate : Memory → ℕ → Option Memory
  vm_page_deactivate s m = deactivate s m false

  unfoldable pub vm_page_deactivate_noreuse : Memory → ℕ → Option Memory
  vm_page_deactivate_noreuse s m = deactivate s m true

  unfoldable pub vm_page_launder : Memory → ℕ → Option Memory
  vm_page_launder s m =
      let queue = (s.pages m).queue in
      if not (queue == pq_laundry)
      then if may_queue (s.pages m)
        then (do s1 ← vm_page_remque s m; vm_page_enqueue pq_laundry s1 m)
        else (do kassert (queue == pq_none); some s)
      else some s
