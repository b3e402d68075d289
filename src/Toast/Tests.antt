-- ===== src/Toast/Tests.antt =====
-- Examples for the messages on the screen (frontend/src/context/ToastContext.tsx).
use ogs_swg.Prelude.{List, [], ◌∷◌, map, none, some, ◌≡◌, All}
use ogs_swg.Toast.{start, run, show, close, timeout, success, error, info, Action}
use ogs_swg.Toast.Laws.{run-timeouts-stay}

-- An error, a message that stays, and one that is closed.
abbrev history : List Action
history =
    show "a" "Failed" error none
    ∷ show "b" "Read me" info (some 0)
    ∷ show "c" "Done" success none
    ∷ close "c"
    ∷ []

run-timeouts-stay_example :
    All
      (λ t. t.duration ≡ 0)
      (run (map timeout (run history start).timers) (run history start)).toasts
run-timeouts-stay_example = run-timeouts-stay history
