-- ===== src/Shell/Runs.antt =====
-- Lines without cd: the commands that are run hold the line's words.
use free_bsd_messaround.Prelude.{
  ◌≡◌, refl, ap, ◌∙◌, sym, inl, inr, Bool, true, false, not, ◌↔◌, some, List, [], ◌∷◌, ◌++◌,
  if◌then◌else◌, Bool-cases, arith,
}
use mathlib.Core.List.{append_assoc, append-nil}
use free_bsd_messaround.Shell.{
  Arg, same_word, cd, semi, Action, goes_home, changes_to, runs, reads_on, finish, split_loop,
  exit_word, main_line,
}

pub same_word_iff : (a b : Arg) → (same_word a b ≡ true) ↔ (a ≡ b)
unfolding same_word
same_word_iff [] [] = (λ h. refl, λ h. refl)
same_word_iff [] (y ∷ b) = (λ h. absurd (cc), λ h. absurd (cc))
same_word_iff (x ∷ a) [] = (λ h. absurd (cc), λ h. absurd (cc))
same_word_iff (x ∷ a) (y ∷ b) =
    let ih = same_word_iff a b in (λ h. ground (arith, ih), λ h. ground (arith, ih))

-- No word of the line is `word`.
abbrev pub Without : Arg → List Arg → Type 0
Without word [] = Unit
Without word (w ∷ ws) = (same_word w word ≡ false) × Without word ws

-- Whether the first word of the line is `word`.
abbrev pub starts_with : Arg → List Arg → Bool
starts_with word [] = false
starts_with word (w ∷ ws) = same_word w word

-- One round at a word that is not cd.
plain_round :
    (seen : List Arg) (w : Arg) (rest : List Arg)
    → same_word w cd ≡ false
    → split_loop seen (w ∷ rest) ≡ (
        if same_word w semi
        then runs seen ∷ split_loop [] rest
        else split_loop (seen ++ (w ∷ [])) rest)
unfolding split_loop
plain_round seen w [] h = rw h refl
plain_round seen w (v ∷ []) h = rw h refl
plain_round seen w (v ∷ x ∷ []) h = rw h refl
plain_round seen w (v ∷ x ∷ y ∷ ws) h = rw h refl

-- The commands joined again, with a semicolon after each.
abbrev pub glue : List Action → List Arg
glue [] = []
glue (runs ws ∷ rest) = ws ++ (semi ∷ glue rest)
glue (goes_home ∷ rest) = glue rest
glue (changes_to w ∷ rest) = glue rest
glue (reads_on ∷ rest) = glue rest

-- Every action runs words that are not semicolons.
abbrev pub OnlyRuns : List Action → Type 0
OnlyRuns [] = Unit
OnlyRuns (runs ws ∷ rest) = Without semi ws × OnlyRuns rest
OnlyRuns (goes_home ∷ rest) = ⊥
OnlyRuns (changes_to w ∷ rest) = ⊥
OnlyRuns (reads_on ∷ rest) = ⊥

Without-snoc :
    (word : Arg) (a : List Arg) (w : Arg)
    → Without word a
    → same_word w word ≡ false
    → Without word (a ++ (w ∷ []))
Without-snoc word [] w h e = (e, tt)
Without-snoc word (x ∷ a) w h e = (h.0, Without-snoc word a w h.1 e)

-- Whether the last command of a line has words but no semicolon after it.
abbrev pub is_open : List Arg → Bool
is_open [] = false
is_open (w ∷ []) = not (same_word w semi)
is_open (w ∷ v ∷ ws) = is_open (v ∷ ws)

-- The line with a semicolon after each of its commands, the last included.
abbrev pub closed : List Arg → List Arg
closed ws = if is_open ws then ws ++ (semi ∷ []) else ws

-- What is run holds the words of the line, with a semicolon after the last command too.
abbrev pub Holds : List Arg → List Action → Type 0
Holds ws actions = OnlyRuns actions × (glue actions ≡ closed ws)

is_open-semi : (seen rest : List Arg) → is_open (seen ++ (semi ∷ rest)) ≡ is_open rest
unfolding same_word
is_open-semi [] [] = refl
is_open-semi [] (w ∷ rest) = refl
is_open-semi (w ∷ []) rest = is_open-semi [] rest
is_open-semi (w ∷ v ∷ seen) rest = is_open-semi (v ∷ seen) rest

closed-semi : (seen rest : List Arg) → seen ++ (semi ∷ closed rest) ≡ closed (seen ++ (semi ∷ rest))
closed-semi seen rest = rw (is_open-semi seen rest) (elim (Bool-cases (is_open rest)) [
  | inl e ↦ rw e (sym (append_assoc seen (semi ∷ rest) (semi ∷ [])))
  | inr e ↦ rw e refl
])

cut :
    (seen rest : List Arg) (actions : List Action)
    → Without semi seen
    → Holds rest actions
    → Holds (seen ++ (semi ∷ rest)) (runs seen ∷ actions)
cut seen rest actions h (o, e) = ((h, o), ap (λ t. seen ++ (semi ∷ t)) e ∙ closed-semi seen rest)

Without-is_open : (w : Arg) (ws : List Arg) → Without semi (w ∷ ws) → is_open (w ∷ ws) ≡ true
Without-is_open w [] h = rw h.0 refl
Without-is_open w (v ∷ ws) h = Without-is_open v ws h.1

closed_open :
    (w : Arg) (ws : List Arg) → Without semi (w ∷ ws) → (w ∷ ws) ++ (semi ∷ []) ≡ closed (w ∷ ws)
closed_open w ws h = rw (Without-is_open w ws h) refl

finish-Holds : (seen : List Arg) → Without semi seen → Holds (seen ++ []) (finish seen)
finish-Holds [] h = (tt, refl)
finish-Holds (w ∷ ws) h = ((h, tt), closed_open w ws h ∙ ap closed (sym (append-nil (w ∷ ws))))

split_loop-Holds_seen :
    (seen rest : List Arg)
    → Without semi seen
    → Without cd rest
    → Holds (seen ++ rest) (split_loop seen rest)
unfolding split_loop
split_loop-Holds_seen seen [] h n = finish-Holds seen h
split_loop-Holds_seen seen (w ∷ rest) h n =
    rw (plain_round seen w rest n.0) (elim (Bool-cases (same_word w semi)) [
      | inl u ↦
          let q : w ≡ semi = (same_word_iff w semi).0 u in
          rw (u, q) (cut seen rest _ h (split_loop-Holds_seen [] rest tt n.1))
      | inr u ↦
          rw (u, sym (append_assoc seen (w ∷ []) rest))
            (split_loop-Holds_seen (seen ++ (w ∷ [])) rest (Without-snoc semi seen w h u) n.1)
    ])

-- A line without cd, whose first word is not exit, is only run by main: the commands, none of which
-- has a semicolon among its words, give the line when they are joined with a semicolon after each; if
-- the line has words after its last semicolon, they give it with one more at its end.
pub main_line-Holds :
    (line : List Arg)
    → Without cd line
    → starts_with exit_word line ≡ false
    → (actions : List Action) × (main_line line ≡ some actions) × Holds line actions
unfolding main_line
main_line-Holds [] n h = ([], refl, (tt, refl))
main_line-Holds (w ∷ ws) n h =
    (split_loop [] (w ∷ ws), rw h refl, split_loop-Holds_seen [] (w ∷ ws) tt n)

-- After "cd" with a directory, a semicolon and a word, neither of which is a semicolon itself, a
-- command of no words is run before the rest of the line.
pub split_loop-cd :
    (dir w : Arg) (ws : List Arg)
    → same_word dir semi ≡ false
    → same_word w semi ≡ false
    → split_loop [] (cd ∷ dir ∷ semi ∷ w ∷ ws) ≡ changes_to dir ∷ runs [] ∷ split_loop [] (w ∷ ws)
unfolding split_loop same_word
split_loop-cd dir w ws d e =
    rw (d, e) (ap (λ t. changes_to dir ∷ t) (plain_round [] semi (w ∷ ws) refl))
