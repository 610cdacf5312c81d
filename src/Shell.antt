-- ===== src/Shell.antt =====
-- How main of asgn1/argshell.c takes a line of words apart into commands and changes of directory.
pub mod Runs
pub mod Tests
use free_bsd_messaround.Prelude.{
  ℕ, ◌==◌, Bool, true, false, ◌&&◌, Option, none, some, List, [], ◌∷◌, ◌++◌, if◌then◌else◌,
}

-- A word as the bytes before its final zero.
abbrev pub Arg : Type 0
Arg = List ℕ

-- !strcmp(a, b).
unfoldable pub same_word : Arg → Arg → Bool
same_word [] [] = true
same_word [] (y ∷ b) = false
same_word (x ∷ a) [] = false
same_word (x ∷ a) (y ∷ b) = x == y && same_word a b

abbrev pub cd : Arg
cd = b'c' ∷ b'd' ∷ []

abbrev pub semi : Arg
semi = b';' ∷ []

abbrev pub exit_word : Arg
exit_word = b'e' ∷ b'x' ∷ b'i' ∷ b't' ∷ []

-- What a line makes the shell do, in order: chdir to the directory it was started in, chdir to a
-- word, or forknRun of some words. `reads_on` is the test of the word after the NULL that ends the
-- line, after which it is not known what is done.
pub data Action : Type 0 where
  goes_home : Action
  changes_to : Arg → Action
  runs : List Arg → Action
  reads_on : Action

-- The end of the loop: what is left is run if there is a word.
abbrev pub finish : List Arg → List Action
finish [] = []
finish (w ∷ ws) = runs (w ∷ ws) ∷ []

-- The loop, where `seen` are the words from `args` up to args[i] and the list the words from there.
pub split_loop : List Arg → List Arg → List Action
split_loop seen [] = finish seen
split_loop seen (w ∷ []) =
    if same_word w cd
    then goes_home ∷ []
    else if same_word w semi
    then runs seen ∷ []
    else finish (seen ++ (w ∷ []))
split_loop seen (w ∷ v ∷ []) =
    let next = split_loop [] (v ∷ []) in
    let on = split_loop (seen ++ (w ∷ [])) (v ∷ []) in
    if same_word w cd
    then (if same_word v semi then goes_home ∷ [] else changes_to v ∷ reads_on ∷ [])
    else if same_word w semi
    then runs seen ∷ next
    else on
split_loop seen (w ∷ v ∷ x ∷ []) =
    let next = split_loop [] (v ∷ x ∷ []) in
    let after = split_loop [] (x ∷ []) in
    let on = split_loop (seen ++ (w ∷ [])) (v ∷ x ∷ []) in
    if same_word w cd
    then (if same_word v semi then goes_home ∷ after else changes_to v ∷ after)
    else if same_word w semi
    then runs seen ∷ next
    else on
split_loop seen (w ∷ v ∷ x ∷ y ∷ ws) =
    let next = split_loop [] (v ∷ x ∷ y ∷ ws) in
    let after = split_loop [] (x ∷ y ∷ ws) in
    let skip = split_loop [] ws in
    let on = split_loop (seen ++ (w ∷ [])) (v ∷ x ∷ y ∷ ws) in
    if same_word w cd
    then if same_word v semi
      then goes_home ∷ after
      else changes_to v ∷ (if same_word y semi then skip else after)
    else if same_word w semi
    then runs seen ∷ next
    else on

-- What main does with a line: `none` when it ends the shell.
pub main_line : List Arg → Option (List Action)
main_line [] = some []
main_line (w ∷ ws) =
    let actions = split_loop [] (w ∷ ws) in if same_word w exit_word then none else some actions
