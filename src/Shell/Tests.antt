-- ===== src/Shell/Tests.antt =====
-- The lines "ls x ; pwd" and "cd x ; pwd".
use free_bsd_messaround.Prelude.{◌≡◌, refl, false, some, List, [], ◌∷◌}
use free_bsd_messaround.Shell.{
  Arg, same_word, cd, semi, exit_word, Action, changes_to, runs, split_loop, main_line,
}
use free_bsd_messaround.Shell.Runs.{Without, Holds, starts_with, main_line-Holds, split_loop-cd}

abbrev ls : Arg
ls = b'l' ∷ b's' ∷ []

abbrev pwd : Arg
pwd = b'p' ∷ b'w' ∷ b'd' ∷ []

abbrev x : Arg
x = b'x' ∷ []

no_cd : Without cd (ls ∷ x ∷ semi ∷ pwd ∷ [])
unfolding same_word
no_cd = (refl, (refl, (refl, (refl, tt))))

no_exit : starts_with exit_word (ls ∷ x ∷ semi ∷ pwd ∷ []) ≡ false
unfolding same_word
no_exit = refl

main_line-Holds_example :
    (actions : List Action) × (main_line (ls ∷ x ∷ semi ∷ pwd ∷ []) ≡ some actions)
    × Holds (ls ∷ x ∷ semi ∷ pwd ∷ []) actions
main_line-Holds_example = main_line-Holds (ls ∷ x ∷ semi ∷ pwd ∷ []) no_cd no_exit

split_loop-cd_example :
    split_loop [] (cd ∷ x ∷ semi ∷ pwd ∷ []) ≡ changes_to x ∷ runs [] ∷ split_loop [] (pwd ∷ [])
unfolding same_word
split_loop-cd_example = split_loop-cd x pwd [] refl refl
