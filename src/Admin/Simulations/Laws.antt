-- ===== src/Admin/Simulations/Laws.antt =====
-- What a row of the simulations asks for.
use mansariya.Base.{
  Bool, true, false, Option, none, some, ◌≡◌, refl, sym, ◌∙◌, ◌↔◌, arith, if◌then◌else◌,
}
use mansariya.Admin.Api.Types.{SimulationStatus, draft, running, paused, stopped}
use mansariya.Admin.Calls.Mutations.{
  Mutation, Transition, start, pause, resume, stop, change_simulation, delete_simulation,
}
use mansariya.Admin.Simulations.{
  Row, offered, is_offered, is_transitioning, press, answered, is_live, open_delete, confirm_delete,
  on_refetch,
}

-- The steps of a simulation.
pub data Follows : SimulationStatus → Transition → Type 0 where
  start_draft : Follows draft start
  start_stopped : Follows stopped start
  pause_running : Follows running pause
  resume_paused : Follows paused resume
  stop_running : Follows running stop
  stop_paused : Follows paused stop

offered_sound :
    (status : SimulationStatus) (t : Transition)
    → is_offered t (offered status) ≡ true
    → Follows status t
unfolding offered
offered_sound draft start h = start_draft
offered_sound stopped start h = start_stopped
offered_sound running pause h = pause_running
offered_sound paused resume h = resume_paused
offered_sound running stop h = stop_running
offered_sound paused stop h = stop_paused
offered_sound draft pause h = absurd (ground arith)
offered_sound draft resume h = absurd (ground arith)
offered_sound draft stop h = absurd (ground arith)
offered_sound stopped pause h = absurd (ground arith)
offered_sound stopped resume h = absurd (ground arith)
offered_sound stopped stop h = absurd (ground arith)
offered_sound running start h = absurd (ground arith)
offered_sound running resume h = absurd (ground arith)
offered_sound paused start h = absurd (ground arith)
offered_sound paused pause h = absurd (ground arith)

offered_complete :
    (status : SimulationStatus) (t : Transition)
    → Follows status t
    → is_offered t (offered status) ≡ true
unfolding offered
offered_complete _ _ start_draft = refl
offered_complete _ _ start_stopped = refl
offered_complete _ _ pause_running = refl
offered_complete _ _ resume_paused = refl
offered_complete _ _ stop_running = refl
offered_complete _ _ stop_paused = refl

press_sent :
    (offer : Bool) (pending : Option Transition) (m : Mutation)
    → (if offer then (if is_transitioning pending then none else some m) else none) ≡ some m
    → (offer ≡ true) × (pending ≡ none)
press_sent true none m h = (refl, refl)
press_sent true (some t) m h = cc
press_sent false pending m h = cc

press-fst :
    (t : Transition) (s : Row)
    → (press t s).0 ≡ (
        if is_offered t (offered s.status)
        then (if is_transitioning s.pending then none else some (change_simulation t s.id))
        else none)
unfolding press
press-fst t s = ground arith

-- A press asks for a step exactly if the simulation can take it in its status and no step waits.
pub press-Follows :
    (t : Transition) (s : Row)
    → ((press t s).0 ≡ some (change_simulation t s.id)) ↔ (Follows s.status t × (s.pending ≡ none))
press-Follows t s = (
  λ h.
      let (offer, free) =
        press_sent (is_offered t (offered s.status)) s.pending _ (sym (press-fst t s) ∙ h) in
      (offered_sound s.status t offer, free),
  λ (step : Follows s.status t × (s.pending ≡ none)).
      press-fst t s ∙ rw (offered_complete s.status t step.0, step.1) refl,
)

-- A dialog that was opened while a start was waiting is still there when the simulation runs: its
-- confirmation asks for the deletion of a running simulation.
pub late_delete :
    (s : Row)
    → is_live s.status ≡ false
    → s.pending ≡ none
    → let (sent, s1) = press start s in
      let s2 = on_refetch running (answered start true (open_delete s1)) in
      (sent ≡ some (change_simulation start s.id))
      × (s2.status ≡ running)
      × ((confirm_delete s2).0 ≡ some (delete_simulation s.id))
unfolding press offered answered confirm_delete
late_delete s idle free = ground arith
