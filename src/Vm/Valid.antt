-- ===== src/Vm/Valid.antt =====
-- What holds of the page queues at all times, and that taking a page off a queue and putting it at
-- the tail keep it.
use free_bsd_messaround.Prelude.{
  ℕ, ◌<◌, ◌≡◌, ◌≢◌, refl, sym, ◌∙◌, inl, inr, Bool, true, false, ◌&&◌, ◌||◌, not, List, ltb, ◌==◌,
  if◌then◌else◌, count, update, ℤ, pos, ◌+ℤ◌, arith, Bool-cases, ==_iff, ==_self,
}
use free_bsd_messaround.Vm.{
  Page, Memory, Kernel, pq_none, pq_inactive, pq_active, pq_laundry, pq_count, vm_pagequeue_cnt_add,
  relink,
}
use free_bsd_messaround.Vm.Queue.{may_queue}
use free_bsd_messaround.Vm.Lists.{real_pages, real_pages-alike, Rises, Rises-away, Alike}

module _ (s : Memory) (m : ℕ) (p : Page) (d q : ℕ) (pl : List ℕ) (addend : ℤ) where
  pub pl-relink :
      (d' q' : ℕ)
      → ((relink s m p d q pl addend).vm_dom d' q').pq_pl
        ≡ (if d' == d && q' == q then pl else (s.vm_dom d' q').pq_pl)
  unfolding relink vm_pagequeue_cnt_add
  pl-relink d' q' = ground arith

  pages-relink : (relink s m p d q pl addend).pages ≡ update s.pages m p
  unfolding relink vm_pagequeue_cnt_add
  pages-relink = refl

  cnt-relink :
      (d' q' : ℕ)
      → ((relink s m p d q pl addend).vm_dom d' q').pq_cnt
        ≡ (if d' == d && q' == q then (s.vm_dom d q).pq_cnt +ℤ addend else (s.vm_dom d' q').pq_cnt)
  unfolding relink vm_pagequeue_cnt_add
  cnt-relink d' q' = ground arith

both : (a b c d : ℕ) → (a == b && c == d) ≡ true → (a ≡ b) × (c ≡ d)
both a b c d h = (ground arith, ground arith)

module _ (k : Kernel) where
  -- The domain whose queue q a page belongs on.
  abbrev pub home : ℕ → ℕ → ℕ
  home q x = if q == pq_laundry then 0 else k.vm_phys_domain x

  -- The field queue is PQ_NONE or one of the queues other than the active one.
  abbrev pub known : ℕ → Bool
  known q = q == pq_none || (ltb q pq_count && not (q == pq_active))

  -- A page stands, once, on the queue that its field names, and on no other; a page that is wired
  -- or unmanaged is on none; pq_cnt counts the pages of a queue that are no markers; and the
  -- birthdays rise along every inactive queue, below pg_cnt.
  pub record IsValid (s : Memory) : Type 0 where
    pub placed :
        (x d q : ℕ)
        → (s.pages x).marker ≡ false
        → q < pq_count
        → count x (s.vm_dom d q).pq_pl ≡ (if (s.pages x).queue == q && home q x == d then 1 else 0)
    pub queues : (x : ℕ) → (s.pages x).marker ≡ false → known (s.pages x).queue ≡ true
    pub apart :
        (x : ℕ)
        → (s.pages x).marker ≡ false
        → may_queue (s.pages x) ≡ false
        → (s.pages x).queue ≡ pq_none
    pub wired : (x : ℕ) → (s.pages x).fictitious ≡ true → (s.pages x).wire_count ≡ 1
    pub counted :
        (d q : ℕ)
        → q < pq_count
        → (s.vm_dom d q).pq_cnt ≡ pos (real_pages s.pages (s.vm_dom d q).pq_pl)
    pub rises : (d : ℕ) → Rises s.pages 0 (s.vm_dom d pq_inactive).pq_pl s.pg_cnt

  -- A page that is off the queues or on the queue Q, before its fields change and after.
  pub record Moves (s : Memory) (m : ℕ) (p : Page) (Q : ℕ) : Type 0 where
    pub real : (s.pages m).marker ≡ false
    pub below : Q < pq_count
    pub before : ((s.pages m).queue == pq_none || (s.pages m).queue == Q) ≡ true
    pub marks : p.marker ≡ false
    pub then_on : (p.queue == pq_none || p.queue == Q) ≡ true
    pub then_known : known p.queue ≡ true
    pub then_apart : may_queue p ≡ false → p.queue ≡ pq_none
    pub then_wired : p.fictitious ≡ true → p.wire_count ≡ 1

  module _ (s : Memory) (m : ℕ) (p : Page) (Q : ℕ) (pl : List ℕ) (addend : ℤ) (v : IsValid s)
      (g : Moves s m p Q) where
    was : (x : ℕ) → (update s.pages m p x).marker ≡ false → (s.pages x).marker ≡ false
    was x r = ground (arith, g.real)

    here :
        ((x : ℕ)
          → (s.pages x).marker ≡ false
          → count x pl ≡ (
              if x == m
              then (if p.queue == Q then 1 else 0)
              else count x (s.vm_dom (home Q m) Q).pq_pl))
        → (x : ℕ) → (update s.pages m p x).marker ≡ false
        → count x pl ≡ (if (update s.pages m p x).queue == Q && home Q x == home Q m then 1 else 0)
    here c x r = elim (Bool-cases (x == m)) [
      | inl e ↦
          let j : x ≡ m = (==_iff x m).0 e in
          rw (e, j, c m g.real, ==_self m, ==_self (home Q m)) (ground arith)
      | inr e ↦ rw e (c x (was x r) ∙ rw e (v.placed x (home Q m) Q (was x r) g.below))
    ]

    elsewhere :
        (x d q : ℕ)
        → (update s.pages m p x).marker ≡ false
        → q < pq_count
        → (d == home Q m && q == Q) ≡ false
        → count x (s.vm_dom d q).pq_pl
          ≡ (if (update s.pages m p x).queue == q && home q x == d then 1 else 0)
    elsewhere x d q r l f = elim (Bool-cases (x == m)) [
      | inl e ↦
          let j : x ≡ m = (==_iff x m).0 e in
          rw (e, j)
            (v.placed m d q g.real l ∙ elim (Bool-cases (q == Q)) [
              | inl i ↦ let qq : q ≡ Q = (==_iff q Q).0 i in ground (arith, f, qq)
              | inr i ↦ ground (arith, i, g.before, g.then_on)
            ])
      | inr e ↦ rw e (v.placed x d q (was x r) l)
    ]

    relink-placed :
        ((x : ℕ)
          → (s.pages x).marker ≡ false
          → count x pl ≡ (
              if x == m
              then (if p.queue == Q then 1 else 0)
              else count x (s.vm_dom (home Q m) Q).pq_pl))
        → (x d q : ℕ) → (update s.pages m p x).marker ≡ false
        → q < pq_count
        → count x ((relink s m p (home Q m) Q pl addend).vm_dom d q).pq_pl
          ≡ (if (update s.pages m p x).queue == q && home q x == d then 1 else 0)
    relink-placed c x d q r l =
        rw (pl-relink s m p (home Q m) Q pl addend d q)
          (elim (Bool-cases (d == home Q m && q == Q)) [
            | inl e ↦ let (dd, qq) = both d (home Q m) q Q e in rw (e, dd, qq) (here c x r)
            | inr e ↦ rw e (elsewhere x d q r l e)
          ])

    relink-counted :
        (s.vm_dom (home Q m) Q).pq_cnt +ℤ addend ≡ pos (real_pages s.pages pl)
        → (d q : ℕ) → q < pq_count
        → ((relink s m p (home Q m) Q pl addend).vm_dom d q).pq_cnt
          ≡ pos (
              real_pages
                (update s.pages m p)
                ((relink s m p (home Q m) Q pl addend).vm_dom d q).pq_pl)
    relink-counted c d q l =
        rw
          (
            pl-relink s m p (home Q m) Q pl addend d q,
            cnt-relink s m p (home Q m) Q pl addend d q,
            real_pages-alike s.pages (update s.pages m p)
                (if d == home Q m && q == Q then pl else (s.vm_dom d q).pq_pl)
                (λ x. ground (arith, g.real, g.marks)),
          )
          (elim (Bool-cases (d == home Q m && q == Q)) [
            | inl e ↦ rw e c
            | inr e ↦ rw e (v.counted d q l)
          ])

    alike : (x : ℕ) → x ≢ m → Alike (s.pages x) (update s.pages m p x)
    alike x n = record { same_marker = ground arith; same_id = ground arith }

    absent :
        (d : ℕ)
        → (d == home Q m && pq_inactive == Q) ≡ false
        → count m (s.vm_dom d pq_inactive).pq_pl ≡ 0
    absent d f = v.placed m d pq_inactive g.real (omega arith) ∙ ground (arith, f, g.before)

    relink-Rises :
        (Q ≡ pq_inactive → Rises (update s.pages m p) 0 pl s.pg_cnt)
        → (d : ℕ)
        → Rises
            (update s.pages m p)
            0
            ((relink s m p (home Q m) Q pl addend).vm_dom d pq_inactive).pq_pl
            s.pg_cnt
    relink-Rises i d =
        rw (pl-relink s m p (home Q m) Q pl addend d pq_inactive)
          (elim (Bool-cases (d == home Q m && pq_inactive == Q)) [
            | inl e ↦ let (dd, qq) = both d (home Q m) pq_inactive Q e in rw e (i (sym qq))
            | inr e ↦ rw e (
                Rises-away s.pages (update s.pages m p) m 0 (s.vm_dom d pq_inactive).pq_pl s.pg_cnt
                  alike (absent d e) (v.rises d))
          ])

    pub relink-IsValid :
        ((x : ℕ)
          → (s.pages x).marker ≡ false
          → count x pl ≡ (
              if x == m
              then (if p.queue == Q then 1 else 0)
              else count x (s.vm_dom (home Q m) Q).pq_pl))
        → (s.vm_dom (home Q m) Q).pq_cnt +ℤ addend ≡ pos (real_pages s.pages pl)
        → (Q ≡ pq_inactive → Rises (update s.pages m p) 0 pl s.pg_cnt)
        → IsValid (relink s m p (home Q m) Q pl addend)
    unfolding relink vm_pagequeue_cnt_add
    relink-IsValid c n i = record {
      placed = relink-placed c;
      queues = λ x r. ground (arith, v.queues x, g.then_known);
      apart = λ x r a. ground (arith, v.apart x, g.then_apart);
      wired = λ x f. ground (arith, v.wired x, g.then_wired);
      counted = relink-counted n;
      rises = relink-Rises i;
    }
