-- ===== src/Vm/Steps.antt =====
-- The two moves of a page, off its queue and to the tail of one, keep the queues valid.
use free_bsd_messaround.Prelude.{
  ℕ, suc, ◌<◌, ◌≡◌, ◌≢◌, refl, sym, ◌∙◌, inl, inr, true, false, [], ◌∷◌, ◌++◌, ◌==◌, erase, count,
  update, pos, negsuc, ◌+ℤ◌, arith, Bool-cases, ==_iff, ==_self,
}
use free_bsd_messaround.Vm.{
  Page, Memory, Kernel, pq_none, pq_inactive, pq_active, pq_count, vm_page_in_laundry,
}
use free_bsd_messaround.Vm.Queue.{vm_page_pagequeue, vm_page_dequeue_locked, insert_tail, may_queue}
use free_bsd_messaround.Vm.Lists.{
  count-erase, count_snoc, real_pages, real_pages-erase, real_pages_snoc, Rises, Rises-erase,
  Rises-snoc, Rises-Alike, Alike,
}
use free_bsd_messaround.Vm.Valid.{home, IsValid, relink-IsValid}

one_less : (n : ℕ) → pos (suc n) +ℤ negsuc 0 ≡ pos n
unfolding ◌+ℤ◌
one_less n = ground arith

one_more : (n : ℕ) → pos n +ℤ pos 1 ≡ pos (suc n)
unfolding ◌+ℤ◌
one_more n = ground arith

-- A page is alike whatever queue it is on.
requeued :
    (pages : ℕ → Page) (m q x : ℕ)
    → Alike (pages x) (update pages m (record (pages m) { queue = q }) x)
requeued pages m q x = elim (Bool-cases (x == m)) [
  | inl e ↦
      let j : x ≡ m = (==_iff x m).0 e in rw (e, j) (record { same_marker = refl; same_id = refl })
  | inr e ↦ rw e (record { same_marker = refl; same_id = refl })
]

taken_apart :
    (p : Page) (q : ℕ) → may_queue p ≡ true → may_queue (record p { queue = q }) ≡ false → ⊥
unfolding may_queue
taken_apart p q may a = ground arith

module _ (k : Kernel) where
  on_queue :
      (s : Memory) (m : ℕ)
      → IsValid k s
      → (s.pages m).marker ≡ false
      → (s.pages m).queue < pq_count
      → count m (s.vm_dom (home k (s.pages m).queue m) (s.pages m).queue).pq_pl ≡ 1
  on_queue s m v real on =
      v.placed m (home k (s.pages m).queue m) (s.pages m).queue real on
      ∙ rw (==_self (s.pages m).queue, ==_self (home k (s.pages m).queue m)) refl

  pub off_queue :
      (s : Memory) (m d Q : ℕ)
      → IsValid k s
      → (s.pages m).marker ≡ false
      → (s.pages m).queue ≡ pq_none
      → Q < pq_count
      → count m (s.vm_dom d Q).pq_pl ≡ 0
  off_queue s m d Q v real off below = v.placed m d Q real below ∙ ground (arith, off)

  pub vm_page_dequeue_locked-IsValid :
      (s : Memory) (m : ℕ)
      → IsValid k s
      → (s.pages m).marker ≡ false
      → (s.pages m).queue < pq_count
      → IsValid k (vm_page_dequeue_locked k s m)
  unfolding vm_page_dequeue_locked vm_page_pagequeue vm_page_in_laundry
  vm_page_dequeue_locked-IsValid s m v real on =
      let Q = (s.pages m).queue in
      let old = (s.vm_dom (home k Q m) Q).pq_pl in
      relink-IsValid k s m _ Q (erase m old) (negsuc 0) v
        (record {
          real = real;
          below = on;
          before = ground arith;
          marks = real;
          then_on = refl;
          then_known = refl;
          then_apart = λ a. refl;
          then_wired = v.wired m;
        })
        (λ x r. count-erase x m old ∙ ground (arith, on_queue s m v real on))
        (rw
          (
            v.counted (home k Q m) Q on,
            sym (real_pages-erase s.pages m old real (omega (arith, on_queue s m v real on))),
          )
          (one_less (real_pages s.pages (erase m old))))
        (λ e.
          Rises-Alike s.pages _ 0 (erase m old) s.pg_cnt (requeued s.pages m pq_none)
            (Rises-erase s.pages 0 m old s.pg_cnt (rw e (v.rises (k.vm_phys_domain m)))))

  pub insert_tail-IsValid :
      (s : Memory) (m Q : ℕ)
      → IsValid k s
      → (s.pages m).marker ≡ false
      → (s.pages m).queue ≡ pq_none
      → may_queue (s.pages m) ≡ true
      → Q < pq_count
      → Q ≢ pq_active
      → (Q ≡ pq_inactive
          → Rises s.pages 0 (s.vm_dom (k.vm_phys_domain m) pq_inactive).pq_pl (s.pages m).id
            × (suc (s.pages m).id ≡ s.pg_cnt))
      → IsValid k (insert_tail s (home k Q m) Q m)
  unfolding insert_tail
  insert_tail-IsValid s m Q v real off may below inactive last =
      let old = (s.vm_dom (home k Q m) Q).pq_pl in
      relink-IsValid k s m _ Q (old ++ (m ∷ [])) (pos 1) v
        (record {
          real = real;
          below = below;
          before = rw off refl;
          marks = real;
          then_on = ground arith;
          then_known = ground arith;
          then_apart = λ a. absurd (taken_apart (s.pages m) Q may a);
          then_wired = v.wired m;
        })
        (λ x r. count_snoc x m old ∙ ground (arith, off_queue s m (home k Q m) Q v real off below))
        (rw (v.counted (home k Q m) Q below, real_pages_snoc s.pages m old real)
          (one_more (real_pages s.pages old)))
        (λ e.
          Rises-Alike s.pages _ 0 (old ++ (m ∷ [])) s.pg_cnt (requeued s.pages m Q) (
            rw (sym (last e).1) (Rises-snoc s.pages 0 m old (s.pages m).id refl (rw e (last e).0))))
