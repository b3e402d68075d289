-- ===== src/Toast.antt =====
-- frontend/src/context/ToastContext.tsx: the messages on the screen and their timers.
-- The identifiers come from `Math.random`, so they are arguments, and may repeat.
pub mod Laws
mod Tests
use ogs_swg.Prelude.{
  ℕ, ◌<◌, String, List, [], ◌∷◌, ◌++◌, Option, none, some, Bool, not, filter, has, ltb, str_eq,
  if◌then◌else◌,
}

pub data ToastType : Type 0 where
  success error info warning : ToastType

pub record Toast : Type 0 where
  pub id : String
  pub type : ToastType
  pub message : String
  pub duration : ℕ

-- The list on the screen, and the identifiers of the pending calls of `setTimeout`.
pub record Toasts : Type 0 where
  pub toasts : List Toast
  pub timers : List String

abbrev pub start : Toasts
start = record { toasts = []; timers = [] }

abbrev pub default_duration : ToastType → ℕ
default_duration error = 8000
default_duration _ = 5000

abbrev pub resolve_duration : ToastType → Option ℕ → ℕ
resolve_duration type none = default_duration type
resolve_duration type (some d) = d

unfoldable pub remove_toast : String → Toasts → Toasts
remove_toast id s = record s { toasts = filter (λ t. not (str_eq t.id id)) s.toasts }

unfoldable pub show_toast : String → String → ToastType → Option ℕ → Toasts → Toasts
show_toast id message type duration s =
    let resolved = resolve_duration type duration in
    record {
      toasts =
          s.toasts ++ record { id = id; type = type; message = message; duration = resolved } ∷ [];
      timers = if ltb 0 resolved then s.timers ++ id ∷ [] else s.timers;
    }

-- The list without its first element of this text.
abbrev pub erase_first : String → List String → List String
erase_first a [] = []
erase_first a (x ∷ xs) = if str_eq x a then xs else x ∷ erase_first a xs

-- A timer of this identifier goes off, if one is pending, and calls `removeToast`.
unfoldable pub fire : String → Toasts → Toasts
unfolding remove_toast
fire id s =
    if has s.timers id then remove_toast id (record s { timers = erase_first id s.timers }) else s

-- What the user and the page do.
pub data Action : Type 0 where
  show : String → String → ToastType → Option ℕ → Action
  close : String → Action
  timeout : String → Action

unfoldable pub act : Action → Toasts → Toasts
unfolding show_toast remove_toast fire
act (show id message type duration) s = show_toast id message type duration s
act (close id) s = remove_toast id s
act (timeout id) s = fire id s

abbrev pub run : List Action → Toasts → Toasts
run [] s = s
run (a ∷ rest) s = run rest (act a s)
