-- ===== src/Vm/Outcome.antt =====
-- What a call that may panic does: with Yields it returns with a value of which P holds, with
-- Ensures P holds of the value if it returns.
use free_bsd_messaround.Prelude.{◌≡◌, Option, none, some, subst, refl}
use free_bsd_messaround.Vm.{◌>>=◌}

module _ {ℓ} {A : Type ℓ} where
  abbrev pub Yields : Option A → (A → Type 0) → Type 0
  Yields none P = ⊥
  Yields (some a) P = P a

  abbrev pub Ensures : Option A → (A → Type 0) → Type 0
  Ensures none P = Unit
  Ensures (some a) P = P a

  pub Yields-Ensures : (P : A → Type 0) (r : Option A) → Yields r P → Ensures r P
  Yields-Ensures P none h = tt
  Yields-Ensures P (some a) h = h

  -- A weaker conclusion.
  pub Yields_weaken :
      (P Q : A → Type 0) (r : Option A) → ((a : A) → P a → Q a) → Yields r P → Yields r Q
  Yields_weaken P Q none w h = h
  Yields_weaken P Q (some a) w h = w a h

  pub Ensures_weaken :
      (P Q : A → Type 0) (r : Option A) → ((a : A) → P a → Q a) → Ensures r P → Ensures r Q
  Ensures_weaken P Q none w h = tt
  Ensures_weaken P Q (some a) w h = w a h

  pub Ensures-at : (P : A → Type 0) (r : Option A) (a : A) → Ensures r P → r ≡ some a → P a
  Ensures-at P r a h e = subst (λ o. Ensures o P) e h

module _ {ℓ κ} {A : Type ℓ} {B : Type κ} where
  pub Yields-then :
      (P : A → Type 0) (Q : B → Type 0) (r : Option A) (f : A → Option B)
      → Yields r P
      → ((a : A) → P a → Yields (f a) Q)
      → Yields (r >>= f) Q
  Yields-then P Q none f h next = h
  Yields-then P Q (some a) f h next = next a h

  pub Ensures-then :
      (P : A → Type 0) (Q : B → Type 0) (r : Option A) (f : A → Option B)
      → Ensures r P
      → ((a : A) → P a → Ensures (f a) Q)
      → Ensures (r >>= f) Q
  Ensures-then P Q none f h next = tt
  Ensures-then P Q (some a) f h next = next a h

  -- Two ways to go on that agree wherever the call may lead.
  pub Ensures-same :
      (P : A → Type 0) (r : Option A) (f g : A → Option B)
      → Ensures r P
      → ((a : A) → P a → f a ≡ g a)
      → (r >>= f) ≡ (r >>= g)
  Ensures-same P none f g h same = refl
  Ensures-same P (some a) f g h same = same a h
