-- ===== src/Smp/Search.antt =====
-- How the rounds of cpu_search keep what was found, over the processors looked at so far.
use free_bsd_messaround.Prelude.{
  ℕ, ◌⊎◌, zero, suc, ◌+◌, ◌<◌, ◌≡◌, refl, sym, ◌∙◌, inl, inr, Bool, true, false, ◌&&◌, ◌||◌, Option,
  none, some, ltb, leb, ◌==◌, ==_iff, ==_self, subst, Bool-cases, if◌then◌else◌, ℤ, arith,
}
use free_bsd_messaround.Tdq.{Tdq}
use free_bsd_messaround.Smp.{
  Mask, CpuGroup, Groups, cpu_group, no_child, child, Match, lowest, highest, CpuSearch, Best,
  Found, replaces, offer, candidate, nand_children, allows, visit, visit_cpus, cpu_search,
  visit_children, found_cpu,
}

module _ (mp_maxid : ℕ) where
  -- The processors of a group: those of its children, and those of its mask that no child has.
  unfoldable mutual
    pub in_group : CpuGroup → ℕ → Bool
    in_group (cpu_group mask level thread children) cpu =
        in_children children cpu || (ltb cpu (mp_maxid + 1) && nand_children mask children cpu)

    pub in_children : Groups → ℕ → Bool
    in_children no_child cpu = false
    in_children (child g gs) cpu = in_group g cpu || in_children gs cpu

  -- A group has no processors beyond mp_maxid.
  mutual
    unfolding in_group

    pub in_group-lt : (g : CpuGroup) (cpu : ℕ) → in_group g cpu ≡ true → cpu < mp_maxid + 1
    in_group-lt (cpu_group mask level thread children) cpu e =
        elim (Bool-cases (in_children children cpu)) [
          | inl h ↦ in_children-lt children cpu h
          | inr h ↦ ground (arith, h, e)
        ]

    in_children-lt : (gs : Groups) (cpu : ℕ) → in_children gs cpu ≡ true → cpu < mp_maxid + 1
    in_children-lt no_child cpu e = absurd (cc)
    in_children-lt (child g gs) cpu e = elim (Bool-cases (in_group g cpu)) [
      | inl h ↦ in_group-lt g cpu h
      | inr h ↦ in_children-lt gs cpu (ground (arith, h, e))
    ]

-- What a search that returned a processor, or none, says of the processors in `v`.
abbrev pub Answers : (ℕ → Bool) → (ℕ → Bool) → Option ℕ → Type 0
Answers ok v none = (c : ℕ) → v c ≡ true → ok c ≡ false
Answers ok v (some c) = (v c ≡ true) × (ok c ≡ true)

module _ (ok : ℕ → Bool) where
  Answers-more :
      (v w : ℕ → Bool) (r : Option ℕ) → ((c : ℕ) → v c ≡ w c) → Answers ok v r → Answers ok w r
  Answers-more v w none same a = λ c e. a c (same c ∙ e)
  Answers-more v w (some c) same a = (sym (same c) ∙ a.0, a.1)

  abbrev first_of : Option (ℕ × ℤ) → Option ℕ
  first_of none = none
  first_of (some (c, load)) = some c

  either_true : (a b : Bool) → (a || b) ≡ true → (a ≡ true) ⊎ (b ≡ true)
  either_true true b e = inl refl
  either_true false b e = inr e

  or_right : (a b : Bool) → b ≡ true → (a || b) ≡ true
  or_right true b e = refl
  or_right false b e = e

  or_left : (a b : Bool) → a ≡ true → (a || b) ≡ true
  or_left true b e = refl
  or_left false b e = absurd (cc)

  module _ (v w : ℕ → Bool) where
    Answers-left : (r : ℕ) → Answers ok v (some r) → Answers ok (λ c. v c || w c) (some r)
    Answers-left r a = (or_left (v r) (w r) a.0, a.1)

    Answers-right : (r : ℕ) → Answers ok w (some r) → Answers ok (λ c. v c || w c) (some r)
    Answers-right r a = (or_right (v r) (w r) a.0, a.1)

    chosen :
        (b : Bool) (new old : Best)
        → Answers ok v (some old.cs_cpu)
        → Answers ok w (some new.cs_cpu)
        → Answers ok (λ c. v c || w c) (found_cpu (if b then some new else some old))
    chosen true new old p q = Answers-right new.cs_cpu q
    chosen false new old p q = Answers-left old.cs_cpu p

    offer-Answers :
        (match : Match) (load : ℤ) (r : Option (ℕ × ℤ)) (best : Option Best)
        → Answers ok v (found_cpu best)
        → Answers ok w (first_of r)
        → Answers ok (λ c. v c || w c) (found_cpu (offer match load r best))
    unfolding offer replaces
    offer-Answers match load none none p q =
        λ c e. elim (either_true (v c) (w c) e) [ inl f ↦ p c f | inr f ↦ q c f ]
    offer-Answers match load none (some b) p q = Answers-left b.cs_cpu p
    offer-Answers lowest load (some (c, l)) none p q = Answers-right c q
    offer-Answers highest load (some (c, l)) none p q = Answers-right c q
    offer-Answers match load (some (c, l)) (some b) p q =
        chosen (replaces match load l (some b)) (record { load = load; cs_cpu = c; cs_load = l }) b
          p q

  same_cpu : (best : Option Best) → first_of (candidate best) ≡ found_cpu best
  same_cpu none = refl
  same_cpu (some b) = refl

-- The tree: each processor is looked at once, in its group.
both : (b x : Bool) → (x || (if b then true else false)) ≡ (x || (true && b))
both true x = refl
both false x = refl

neither : (b x : Bool) → (x || (if b then false else false)) ≡ (x || (false && b))
neither true x = refl
neither false x = refl

or_false : (x : Bool) → x ≡ (x || false)
or_false true = refl
or_false false = refl

or_assoc : (x y z : Bool) → ((x || y) || z) ≡ (x || (y || z))
or_assoc true y z = refl
or_assoc false y z = refl

module _ (mp_maxid : ℕ) (tdq_cpu : ℕ → Tdq) (match : Match) (cs : CpuSearch) where
  abbrev ok : ℕ → Bool
  ok = allows mp_maxid tdq_cpu match cs

  alone :
      (cpu : ℕ) (load : ℤ) (b : Bool)
      → ok cpu ≡ b
      → Answers ok (λ c. c == cpu) (first_of ok (if b then some (cpu, load) else none))
  alone cpu load true e = (ground arith, e)
  alone cpu load false e = λ c f. subst (λ d. ok d ≡ false) (sym ((==_iff c cpu).0 f)) e

  visit-Answers :
      (v : ℕ → Bool) (f : Found) (cpu : ℕ)
      → Answers ok v (found_cpu f.best)
      → Answers ok (λ c. v c || c == cpu) (found_cpu (visit mp_maxid tdq_cpu match cs f cpu).best)
  unfolding visit
  visit-Answers v f cpu p =
      offer-Answers ok v (λ c. c == cpu) match _ _ f.best p (alone cpu _ (ok cpu) refl)

  only_at :
      (cpumask : Mask) (cpu c : ℕ) (b x : Bool)
      → cpumask cpu ≡ b
      → (x || (if b then c == cpu else false)) ≡ (x || (c == cpu && cpumask c))
  only_at cpumask cpu c b x e = elim (Bool-cases (c == cpu)) [
    | inl f ↦ let g : c ≡ cpu = (==_iff c cpu).0 f in rw g (rw (==_self cpu) (rw e (both b x)))
    | inr f ↦ rw f (neither b x)
  ]

  visit_if-Answers :
      (cpumask : Mask) (cpu : ℕ) (b : Bool) (v : ℕ → Bool) (f : Found)
      → cpumask cpu ≡ b
      → Answers ok v (found_cpu f.best)
      → Answers ok
          (λ c. v c || (c == cpu && cpumask c))
          (found_cpu (if b then visit mp_maxid tdq_cpu match cs f cpu else f).best)
  visit_if-Answers cpumask cpu true v f e p =
      Answers-more ok _ _ _ (λ c. only_at cpumask cpu c true (v c) e) (visit-Answers v f cpu p)
  visit_if-Answers cpumask cpu false v f e p =
      Answers-more ok v _ _ (λ c. or_false (v c) ∙ only_at cpumask cpu c false (v c) e) p

  one_more :
      (x m : Bool) (n cpu c : ℕ)
      → ((x || (c == cpu && m)) || (leb (cpu + 1) c && ltb c (cpu + 1 + n) && m))
        ≡ (x || (leb cpu c && ltb c (cpu + suc n) && m))
  one_more true m n cpu c = refl
  one_more false true n cpu c = ground arith
  one_more false false n cpu c = ground arith

  no_more : (x m : Bool) (cpu c : ℕ) → x ≡ (x || (leb cpu c && ltb c (cpu + 0) && m))
  no_more true m cpu c = refl
  no_more false m cpu c = ground arith

  visit_cpus-Answers :
      (cpumask : Mask) (n cpu : ℕ) (v : ℕ → Bool) (f : Found)
      → Answers ok v (found_cpu f.best)
      → Answers ok
          (λ c. v c || (leb cpu c && ltb c (cpu + n) && cpumask c))
          (found_cpu (visit_cpus mp_maxid tdq_cpu match cs cpumask n cpu f).best)
  unfolding visit_cpus
  visit_cpus-Answers cpumask zero cpu v f p =
      Answers-more ok v _ _ (λ c. no_more (v c) (cpumask c) cpu c) p
  visit_cpus-Answers cpumask (suc n) cpu v f p =
      Answers-more ok _ _ _ (λ c. one_more (v c) (cpumask c) n cpu c)
        (visit_cpus-Answers cpumask n (cpu + 1) (λ c. v c || (c == cpu && cpumask c)) _
          (visit_if-Answers cpumask cpu (cpumask cpu) v f refl p))

  from_zero :
      (x m : Bool) (n c : ℕ) → (x || (leb 0 c && ltb c (0 + n) && m)) ≡ (x || (ltb c n && m))
  from_zero true m n c = refl
  from_zero false true n c = ground arith
  from_zero false false n c = ground arith

  mutual
    unfolding cpu_search in_group

    pub cpu_search-Answers :
        (g : CpuGroup) (state : ℕ)
        → Answers ok
            (in_group mp_maxid g)
            (found_cpu (cpu_search mp_maxid tdq_cpu match cs g state).best)
    cpu_search-Answers (cpu_group mask level thread children) state =
        Answers-more ok _ _ _ (λ c. from_zero (in_children mp_maxid children c) _ (mp_maxid + 1) c)
          (visit_cpus-Answers (nand_children mask children) (mp_maxid + 1) 0
            (in_children mp_maxid children) _
            (visit_children-Answers children (λ c. false) _ (λ c e. absurd (cc))))

    visit_children-Answers :
        (gs : Groups) (v : ℕ → Bool) (f : Found)
        → Answers ok v (found_cpu f.best)
        → Answers ok
            (λ c. v c || in_children mp_maxid gs c)
            (found_cpu (visit_children mp_maxid tdq_cpu match cs gs f).best)
    visit_children-Answers no_child v f p = Answers-more ok v _ _ (λ c. or_false (v c)) p
    visit_children-Answers (child g gs) v f p =
        Answers-more ok _ _ _
          (λ c. or_assoc (v c) (in_group mp_maxid g c) (in_children mp_maxid gs c))
          (visit_children-Answers gs (λ c. v c || in_group mp_maxid g c) _
            (offer-Answers ok v (in_group mp_maxid g) match _ _ f.best p (
              subst (Answers ok (in_group mp_maxid g)) (sym (same_cpu ok _))
                (cpu_search-Answers g f.randomval))))
