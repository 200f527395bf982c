-- ===== src/Panel/Tests.antt =====
-- cmd/dicta-preview/main.go: two utterances that are joined and committed.
use dicta.Base.{◌≡◌, refl, true, false, List, [], ◌∷◌, ◌++◌, codes, arith}
use dicta.Panel.{
  Editor, transcript, session_state, commit, cancel, new, enter, escape, Step, reads, frames,
  destroys, notices, run, cancel_fails, response,
}
use dicta.Panel.Commands.{IsPolite, run-IsPolite}

abbrev same : Editor → Editor
same ed = ed

abbrev dictation : List Step
dictation =
    reads (transcript (codes "Hi there.") true)
    ∷ reads (transcript (codes "draft") false)
    ∷ reads (transcript (codes "Bye.") true)
    ∷ frames (enter true true ∷ enter false false ∷ enter true false ∷ escape true ∷ []) same
    ∷ destroys
    ∷ []

commits : (run dictation new).sent ≡ commit (codes "Hi there. Bye." ++ 10 ∷ []) ∷ []
unfolding run new
commits = refl

closes : (run (reads (session_state false) ∷ notices ∷ destroys ∷ []) new).sent ≡ []
unfolding run new
closes = refl

-- The window may be destroyed before the end of the subscription is noticed.
races : (run (reads (session_state false) ∷ destroys ∷ notices ∷ []) new).sent ≡ cancel ∷ []
unfolding run new
races = refl

tolerates : cancel_fails (response false (codes "not_implemented")) ≡ false
unfolding cancel_fails
tolerates = refl

new-IsPolite : IsPolite new
unfolding new
new-IsPolite = record { silent = λ _. refl; once = omega arith }

run-IsPolite_example : IsPolite (run dictation new)
run-IsPolite_example = run-IsPolite dictation new new-IsPolite
