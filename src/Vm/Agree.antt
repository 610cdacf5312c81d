-- ===== src/Vm/Agree.antt =====
-- Memories that differ in nothing that the queues depend on are valid together.
use free_bsd_messaround.Prelude.{
  ℕ, suc, ◌<◌, ◌^◌, ◌≡◌, refl, sym, ◌∙◌, inl, inr, false, ◌==◌, arith, Bool-cases, ==_iff,
}
use free_bsd_messaround.Vm.{Page, Memory, Kernel, pq_none, pq_inactive, with_page}
use free_bsd_messaround.Vm.Queue.{give_id, may_queue}
use free_bsd_messaround.Vm.Lists.{real_pages-alike, Rises, Rises-Alike, Rises-higher, Rises-away}
use free_bsd_messaround.Vm.Valid.{IsValid}
use free_bsd_messaround.Vm.Steps.{off_queue}

pub record SamePage (p p' : Page) : Type 0 where
  pub queue : p'.queue ≡ p.queue
  pub id : p'.id ≡ p.id
  pub marker : p'.marker ≡ p.marker
  pub wire_count : p'.wire_count ≡ p.wire_count
  pub unmanaged : p'.unmanaged ≡ p.unmanaged
  pub fictitious : p'.fictitious ≡ p.fictitious

pub SamePage-self : (p : Page) → SamePage p p
SamePage-self p = record {
  queue = refl;
  id = refl;
  marker = refl;
  wire_count = refl;
  unmanaged = refl;
  fictitious = refl;
}

pub record Agree (s s' : Memory) : Type 0 where
  pub pages : (x : ℕ) → SamePage (s.pages x) (s'.pages x)
  pub vm_dom : s'.vm_dom ≡ s.vm_dom
  pub pg_cnt : s'.pg_cnt ≡ s.pg_cnt

-- New fields of one page that are the same where it matters.
pub Agree-with_page :
    (s : Memory) (m : ℕ) (p : Page) → SamePage (s.pages m) p → Agree s (with_page s m p)
Agree-with_page s m p same = record {
  pages = λ x. elim (Bool-cases (x == m)) [
    | inl e ↦ let j : x ≡ m = (==_iff x m).0 e in rw (e, j) same
    | inr e ↦ rw e (SamePage-self (s.pages x))
  ];
  vm_dom = refl;
  pg_cnt = refl;
}

pub Agree-self : (s : Memory) → Agree s s
Agree-self s = record { pages = λ x. SamePage-self (s.pages x); vm_dom = refl; pg_cnt = refl }

pub Agree-then : (s t u : Memory) → Agree s t → Agree t u → Agree s u
Agree-then s t u a b = record {
  pages = λ x. record {
    queue = (b.pages x).queue ∙ (a.pages x).queue;
    id = (b.pages x).id ∙ (a.pages x).id;
    marker = (b.pages x).marker ∙ (a.pages x).marker;
    wire_count = (b.pages x).wire_count ∙ (a.pages x).wire_count;
    unmanaged = (b.pages x).unmanaged ∙ (a.pages x).unmanaged;
    fictitious = (b.pages x).fictitious ∙ (a.pages x).fictitious;
  };
  vm_dom = b.vm_dom ∙ a.vm_dom;
  pg_cnt = b.pg_cnt ∙ a.pg_cnt;
}

pub same_may : (p p' : Page) → SamePage p p' → may_queue p' ≡ may_queue p
unfolding may_queue
same_may p p' same = rw (same.wire_count, same.unmanaged) refl

module _ (k : Kernel) where
  pub Agree-IsValid : (s s' : Memory) → Agree s s' → IsValid k s → IsValid k s'
  Agree-IsValid s s' a v = record {
    placed = λ x d q r l.
        rw (a.vm_dom, (a.pages x).queue) (v.placed x d q (sym (a.pages x).marker ∙ r) l);
    queues = λ x r. rw (a.pages x).queue (v.queues x (sym (a.pages x).marker ∙ r));
    apart = λ x r n.
        (a.pages x).queue
        ∙ v.apart x (sym (a.pages x).marker ∙ r) (sym (same_may _ _ (a.pages x)) ∙ n);
    wired = λ x f. (a.pages x).wire_count ∙ v.wired x (sym (a.pages x).fictitious ∙ f);
    counted = λ d q l.
        rw
          (
            a.vm_dom,
            real_pages-alike s.pages s'.pages (s.vm_dom d q).pq_pl (λ x. (a.pages x).marker),
          )
          (v.counted d q l);
    rises = λ d.
        rw (a.vm_dom, a.pg_cnt)
          (Rises-Alike s.pages s'.pages 0 (s.vm_dom d pq_inactive).pq_pl s.pg_cnt
            (λ x. record { same_marker = (a.pages x).marker; same_id = (a.pages x).id })
            (v.rises d));
  }

  -- The birthdays of the others on a queue are below the one that is given.
  pub give_id-Rises :
      (s : Memory) (m : ℕ)
      → IsValid k s
      → (s.pages m).marker ≡ false
      → (s.pages m).queue ≡ pq_none
      → (d : ℕ) → Rises (give_id s m).pages 0 (s.vm_dom d pq_inactive).pq_pl s.pg_cnt
  unfolding give_id
  give_id-Rises s m v real off d =
      Rises-away s.pages (give_id s m).pages m 0 (s.vm_dom d pq_inactive).pq_pl s.pg_cnt
        (λ x n. record { same_marker = ground arith; same_id = ground arith })
        (off_queue k s m d pq_inactive v real off (omega arith)) (v.rises d)

  -- A page that is on no queue gets the next birthday.
  pub give_id-IsValid :
      (s : Memory) (m : ℕ)
      → IsValid k s
      → (s.pages m).marker ≡ false
      → (s.pages m).queue ≡ pq_none
      → suc s.pg_cnt < 2 ^ 64
      → IsValid k (give_id s m)
  unfolding give_id may_queue
  give_id-IsValid s m v real off room = record {
    placed = λ x d q r l. ground (arith, v.placed x d q);
    queues = λ x r. ground (arith, v.queues x);
    apart = λ x r n. ground (arith, v.apart x);
    wired = λ x f. ground (arith, v.wired x);
    counted = λ d q l.
        rw (real_pages-alike s.pages (give_id s m).pages (s.vm_dom d q).pq_pl (λ x. ground arith))
          (v.counted d q l);
    rises = λ d.
        Rises-higher (give_id s m).pages 0 (s.vm_dom d pq_inactive).pq_pl s.pg_cnt _ (ground arith)
          (give_id-Rises s m v real off d);
  }
