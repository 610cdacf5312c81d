-- ===== src/Vm/Pageout/Take.antt =====
-- Taking a page off the inactive queue removes that page from the list and leaves the others.
use free_bsd_messaround.Prelude.{
  ℕ, ◌≡◌, refl, ap, ◌∙◌, inl, inr, Bool, true, false, ◌&&◌, not, Option, none, some, List, ◌∷◌,
  ◌++◌, ◌==◌, if◌then◌else◌, count, erase, arith, Bool-cases, ==_iff, ==_self, update_self, ℤ,
}
use free_bsd_messaround.Vm.{
  Page, PageQueue, VmObject, removes_all, vm_page_bits_all, Memory, Kernel, pq_none, pq_inactive,
  pq_laundry, with_page, relink, vm_pagequeue_cnt_add, vm_page_in_laundry, ◌>>=◌, calls,
}
use free_bsd_messaround.Vm.Queue.{
  vm_page_pagequeue, vm_page_dequeue_locked, vm_page_remque, vm_page_enqueue, insert_tail,
  vm_page_launder, may_queue, funnelled,
}
use free_bsd_messaround.Vm.Free.{vm_page_free, vm_page_free_toq}
use free_bsd_messaround.Vm.Wire.{vm_page_dirty, pmap_remove_all}
use free_bsd_messaround.Vm.Valid.{pl-relink}
use free_bsd_messaround.Vm.Agree.{Agree, Agree-self, Agree-then}
use free_bsd_messaround.Vm.Outcome.{Ensures, Ensures-then, Ensures_weaken}
use free_bsd_messaround.Vm.Freed.{edited-Agree, outside-Agree, freed_off-Agree}
use free_bsd_messaround.Vm.Pageout.{
  inactive, with_inactive, vm_page_test_dirty, unmap, free_or_launder, dispose, take_page,
  insert_after, tailq_next, tailq_first,
}
use free_bsd_messaround.Vm.Pageout.Lists.{tailq_next_at, erase_at, insert_after_at}

-- The list of the inactive queue of domain d is pl, and no page became a marker or ceased to be one.
pub record Listed (d : ℕ) (s s' : Memory) (pl : List ℕ) : Type 0 where
  pub lists : inactive s' d ≡ pl
  pub marks : (x : ℕ) → (s'.pages x).marker ≡ (s.pages x).marker

agreed-Listed : (d : ℕ) (s s' : Memory) → Agree s s' → Listed d s s' (inactive s d)
agreed-Listed d s s' a = record {
  lists = ap (λ (f : ℕ → ℕ → PageQueue). (f d pq_inactive).pq_pl) a.vm_dom;
  marks = λ x. (a.pages x).marker;
}

vm_page_dirty-Agree : (s : Memory) (m : ℕ) → Ensures (vm_page_dirty s m) (Agree s)
unfolding vm_page_dirty
vm_page_dirty-Agree s m = elim (Bool-cases ((s.pages m).valid == vm_page_bits_all)) [
  | inl e ↦ rw e (edited-Agree s m _ _ _ _ _ _ _ _ _)
  | inr e ↦ rw e tt
]

relink_marks :
    (s : Memory) (m : ℕ) (p : Page) (d q : ℕ) (pl : List ℕ) (addend : ℤ) (x : ℕ)
    → p.marker ≡ (s.pages m).marker
    → ((relink s m p d q pl addend).pages x).marker ≡ (s.pages x).marker
unfolding relink vm_pagequeue_cnt_add
relink_marks s m p d q pl addend x same = elim (Bool-cases (x == m)) [
  | inl e ↦ let j : x ≡ m = (==_iff x m).0 e in rw (e, j) same
  | inr e ↦ rw e refl
]

relink_page :
    (s : Memory) (m : ℕ) (p : Page) (d q : ℕ) (pl : List ℕ) (addend : ℤ)
    → (relink s m p d q pl addend).pages m ≡ p
unfolding relink vm_pagequeue_cnt_add
relink_page s m p d q pl addend = update_self s.pages m p

with_inactive-list : (s : Memory) (d : ℕ) (pl : List ℕ) → inactive (with_inactive s d pl) d ≡ pl
unfolding with_inactive
with_inactive-list s d pl = ground arith

with_inactive-pages : (s : Memory) (d : ℕ) (pl : List ℕ) → (with_inactive s d pl).pages ≡ s.pages
unfolding with_inactive
with_inactive-pages s d pl = refl

module _ (k : Kernel) where
  test_dirty-Agree : (s : Memory) (m : ℕ) → Ensures (vm_page_test_dirty k s m) (Agree s)
  unfolding vm_page_test_dirty
  test_dirty-Agree s m =
      elim (Bool-cases
        (not ((s.pages m).dirty == vm_page_bits_all) && k.pmap_is_modified s.events m)) [
          | inl e ↦ rw e (vm_page_dirty-Agree s m)
          | inr e ↦ rw e (Agree-self s)
        ]

  remove_all-Agree : (s : Memory) (m : ℕ) → Ensures (pmap_remove_all k s m) (Agree s)
  unfolding pmap_remove_all
  remove_all-Agree s m = elim (Bool-cases (k.pmap_is_modified s.events m)) [
    | inl e ↦ rw e (
        Ensures_weaken (Agree (calls s (removes_all m))) (Agree s)
          (vm_page_dirty (calls s (removes_all m)) m)
          (λ t a. Agree-then s (calls s (removes_all m)) t (outside-Agree _ _ refl refl refl) a)
          (vm_page_dirty-Agree (calls s (removes_all m)) m))
    | inr e ↦ rw e (outside-Agree _ _ refl refl refl)
  ]

  unmap-Agree : (s : Memory) (m : ℕ) (o : VmObject) → Ensures (unmap k s m o) (Agree s)
  unfolding unmap
  unmap-Agree s m o = elim (Bool-cases (o.ref_count == 0)) [
    | inl e ↦ rw e (Agree-self s)
    | inr e ↦ rw e (
        Ensures-then (Agree s) (Agree s) (vm_page_test_dirty k s m)
          (λ s1. if (s1.pages m).dirty == 0 then pmap_remove_all k s1 m else some s1)
          (test_dirty-Agree s m)
          (λ s1 a. elim (Bool-cases ((s1.pages m).dirty == 0)) [
            | inl f ↦ rw f (
                Ensures_weaken (Agree s1) (Agree s) (pmap_remove_all k s1 m)
                  (λ t b. Agree-then s s1 t a b) (remove_all-Agree s1 m))
            | inr f ↦ rw f a
          ]))
  ]

  -- Freeing or laundering a page that is on no queue.
  module _ (d m : ℕ) where
    free-Agree : (s : Memory) → (s.pages m).queue ≡ pq_none → Ensures (vm_page_free k s m) (Agree s)
    unfolding vm_page_free
    free-Agree s off =
        let plain = with_page s m (record (s.pages m) { zeroed = false }) in
        Ensures_weaken (Agree plain) (Agree s) (vm_page_free_toq k plain m)
          (λ t a. Agree-then s plain t (edited-Agree s m _ _ _ _ _ _ _ _ _) a)
          (freed_off-Agree k plain m (ap Page.queue (update_self s.pages m _) ∙ off))

    insert_laundry-Listed : (s : Memory) → Listed d s (insert_tail s 0 pq_laundry m) (inactive s d)
    unfolding insert_tail
    insert_laundry-Listed s = record {
      lists = pl-relink s m _ 0 pq_laundry _ _ d pq_inactive ∙ ground arith;
      marks = λ x. relink_marks s m _ 0 pq_laundry _ _ x refl;
    }

    launder-Listed :
        (s : Memory)
        → (s.pages m).queue ≡ pq_none
        → Ensures (vm_page_launder k s m) (λ t. Listed d s t (inactive s d))
    unfolding vm_page_launder vm_page_remque vm_page_enqueue funnelled may_queue
    launder-Listed s off = elim (Bool-cases (may_queue (s.pages m))) [
      | inl e ↦ rw (off, e) (insert_laundry-Listed s)
      | inr e ↦ rw (off, e) (agreed-Listed d s s (Agree-self s))
    ]

    abbrev KeptList : Memory → Memory × Bool → Type 0
    KeptList s r = Listed d s r.0 (inactive s d)

    after-Agree :
        (s t u : Memory) → Agree s t → Listed d t u (inactive t d) → Listed d s u (inactive s d)
    after-Agree s t u a l = record {
      lists = l.lists ∙ (agreed-Listed d s t a).lists;
      marks = λ x. l.marks x ∙ (a.pages x).marker;
    }

    freed-Listed :
        (s : Memory)
        → (s.pages m).queue ≡ pq_none
        → Ensures (vm_page_free k s m >>= (λ s1. some (s1, true))) (KeptList s)
    freed-Listed s off =
        Ensures-then (Agree s) (KeptList s) (vm_page_free k s m) (λ s1. some (s1, true))
          (free-Agree s off) (λ s1 a. agreed-Listed d s s1 a)

    free_or_launder-Listed :
        (s : Memory) (o : VmObject)
        → (s.pages m).queue ≡ pq_none
        → Ensures (free_or_launder k s m o) (KeptList s)
    unfolding free_or_launder
    free_or_launder-Listed s o off = elim (Bool-cases ((s.pages m).dirty == 0)) [
      | inl e ↦ rw e (freed-Listed s off)
      | inr e ↦ rw e (elim (Bool-cases o.dead) [
        | inl f ↦ rw f (agreed-Listed d s s (Agree-self s))
        | inr f ↦ rw f (
            Ensures-then (λ t. Listed d s t (inactive s d)) (KeptList s) (vm_page_launder k s m)
              (λ s1. some (s1, false)) (launder-Listed s off) (λ s1 l. l))
      ])
    ]

    dispose-Listed :
        (s : Memory) (o : Option ℕ)
        → (s.pages m).queue ≡ pq_none
        → Ensures (dispose k s m o) (KeptList s)
    unfolding dispose
    dispose-Listed s none off = tt
    dispose-Listed s (some o) off = elim (Bool-cases ((s.pages m).valid == 0)) [
      | inl e ↦ rw e (freed-Listed s off)
      | inr e ↦ rw e (
          Ensures-then (Agree s) (KeptList s) (unmap k s m (s.objects o))
            (λ s1. free_or_launder k s1 m (s1.objects o)) (unmap-Agree s m (s.objects o))
            (λ s1 a.
              Ensures_weaken (KeptList s1) (KeptList s) (free_or_launder k s1 m (s1.objects o))
                (λ r l. after-Agree s s1 r.0 a l)
                (free_or_launder-Listed s1 (s1.objects o) ((a.pages m).queue ∙ off))))
    ]

  -- A page of the inactive queue of domain d leaves it for no queue.
  dequeued-Listed :
      (d : ℕ) (s : Memory) (m : ℕ)
      → (s.pages m).queue ≡ pq_inactive
      → k.vm_phys_domain m ≡ d
      → Listed d s (vm_page_dequeue_locked k s m) (erase m (inactive s d))
        × (((vm_page_dequeue_locked k s m).pages m).queue ≡ pq_none)
  unfolding vm_page_dequeue_locked vm_page_pagequeue vm_page_in_laundry
  dequeued-Listed d s m on home = (
    record {
      lists = pl-relink s m _ _ _ _ _ d pq_inactive ∙ rw (on, home, ==_self d) refl;
      marks = λ x. relink_marks s m _ _ _ _ _ x refl;
    },
    ap Page.queue (relink_page s m _ _ _ _ _),
  )

  -- The page m, which stands after pre and before post.
  module _ (marker d : ℕ) (s : Memory) (m : ℕ) (pre post : List ℕ)
      (here : inactive s d ≡ pre ++ (m ∷ post)) (fresh : count m pre ≡ 0)
      (apart : count marker pre ≡ 0) (differs : (m == marker) ≡ false)
      (on : (s.pages m).queue ≡ pq_inactive) (home : k.vm_phys_domain m ≡ d) where
    abbrev marked : Memory
    marked = with_inactive s d (insert_after m marker (inactive s d))

    marked-list : inactive marked d ≡ pre ++ (m ∷ marker ∷ post)
    marked-list =
        with_inactive-list s d _
        ∙ ap (insert_after m marker) here
        ∙ insert_after_at m post marker pre fresh

    off_Listed :
        Listed d s (vm_page_dequeue_locked k marked m) (pre ++ (marker ∷ post))
        × (((vm_page_dequeue_locked k marked m).pages m).queue ≡ pq_none)
    unfolding with_inactive
    off_Listed =
        let (l, q) = dequeued-Listed d marked m on home in
        (
          record {
            lists = l.lists ∙ ap (erase m) marked-list ∙ erase_at m (marker ∷ post) pre fresh;
            marks = λ x. l.marks x;
          },
          q,
        )

    abbrev off : Memory
    off = vm_page_dequeue_locked k marked m

    abbrev Taken : Memory × Bool × Option ℕ → Type 0
    Taken r = Listed d s r.0 (pre ++ post) × (r.2 ≡ tailq_first post)

    -- The page is taken out of the list, and the scan goes on behind it.
    pub take_page-Listed : Ensures (take_page k marker d s m) Taken
    unfolding take_page with_inactive
    take_page-Listed =
        Ensures-then (KeptList d m off) Taken (dispose k off m (s.pages m).object)
          (λ r. some (
            with_inactive r.0 d (erase marker (inactive r.0 d)),
            r.1,
            tailq_next marker (inactive r.0 d),
          ))
          (dispose-Listed d m off (s.pages m).object off_Listed.1)
          (λ r l.
            let e = l.lists ∙ off_Listed.0.lists in
            (
              record {
                lists =
                    with_inactive-list r.0 d _
                    ∙ ap (erase marker) e
                    ∙ erase_at marker post pre apart;
                marks = λ x. l.marks x ∙ off_Listed.0.marks x;
              },
              ap (tailq_next marker) e ∙ tailq_next_at marker post pre apart,
            ))
