-- ===== src/Admin/Simulations.antt =====
-- admin/src/pages/simulations.tsx: the buttons and the menu of a simulation.
pub mod Laws
mod Tests
use mansariya.Base.{
  String, Bool, true, false, ◌||◌, ◌&&◌, Option, none, some, List, [], ◌∷◌, if◌then◌else◌,
}
use mansariya.Admin.Api.Types.{SimulationStatus, draft, running, paused, stopped}
use mansariya.Admin.Calls.Mutations.{
  Mutation, Transition, start, pause, resume, stop, change_simulation, delete_simulation,
}

-- Which requests of the row wait, and whether its dialog is open. `told` are the messages that were
-- shown, and `refetches` says how often the list was asked for again.
pub data Notice : Type 0 where
  succeeded refused : Mutation → Notice

pub record Row : Type 0 where
  pub id : String
  pub status : SimulationStatus
  pub pending : Option Transition
  pub delete_open : Bool
  pub notices : List Notice
  pub is_stale : Bool

abbrev pub same_transition : Transition → Transition → Bool
same_transition start start = true
same_transition pause pause = true
same_transition resume resume = true
same_transition stop stop = true
same_transition _ _ = false

-- The buttons that are shown.
unfoldable pub offered : SimulationStatus → List Transition
offered draft = start ∷ []
offered stopped = start ∷ []
offered running = pause ∷ stop ∷ []
offered paused = resume ∷ stop ∷ []

abbrev pub is_offered : Transition → List Transition → Bool
is_offered t [] = false
is_offered t (x ∷ xs) = same_transition t x || is_offered t xs

abbrev pub is_transitioning : Option Transition → Bool
is_transitioning none = false
is_transitioning (some t) = true

unfoldable pub press : Transition → Row → Option Mutation × Row
unfolding offered
press t s =
    if is_offered t (offered s.status)
    then (if is_transitioning s.pending
        then (none, s)
        else (some (change_simulation t s.id), record s { pending = some t }))
    else (none, s)

-- `onSuccess` and `onError`
unfoldable pub answered : Transition → Bool → Row → Row
answered t true s = record s {
  pending = none;
  notices = succeeded (change_simulation t s.id) ∷ s.notices;
  is_stale = true;
}
answered t false s = record s {
  pending = none;
  notices = refused (change_simulation t s.id) ∷ s.notices;
}

abbrev pub is_live : SimulationStatus → Bool
is_live running = true
is_live paused = true
is_live _ = false

-- The item of the menu, the dialog, and what the dialog asks for.
abbrev pub open_delete : Row → Row
open_delete s = if is_live s.status then s else record s { delete_open = true }

unfoldable pub confirm_delete : Row → Option Mutation × Row
confirm_delete s =
    if s.delete_open
    then (some (delete_simulation s.id), record s { delete_open = false })
    else (none, s)

-- The list that was asked for again, with the status that the backend has.
abbrev pub on_refetch : SimulationStatus → Row → Row
on_refetch status s = record s { status = status; is_stale = false }
