-- ===== src/Inference/Stop.antt =====
-- simple_serving/inference.py: `Work.stop` with `_stopping` of a generation, and what `_answer_outcome`
-- sends at the end.
use simple_serving.Prelude.{
  ℕ, Bool, true, false, ◌&&◌, Option, none, some, List, if◌then◌else◌, get_elem?, ◌>>=◌,
}
use simple_serving.Errors.{Code, internal_error}
use simple_serving.Line.{Ticket, Future, pending, resolved, cancelled, is_waiting}
use simple_serving.Admission.{Admission}
use simple_serving.CountPlaces.{CountPlaces}
use simple_serving.Admission.Runs as GenerationRuns
use simple_serving.CountPlaces.Runs as CountRuns
use simple_serving.Work.{Work, StopReason, is_running, stop, stop_code}
use simple_serving.Inference.{
  TextWork, Places, Phase, awaits_count_place, awaits_place, leave_ticket_at, Outcome, ended_well,
  cut_off, crashed, failed,
}

abbrev pub is_none {ℓ} : {A : Type ℓ} → Option A → Bool
is_none none = true
is_none (some x) = false

abbrev pub is_first_stop : Work → Bool
is_first_stop w = is_running w.task && is_none w.stop_reason

abbrev pub waits_at : List Ticket → Option ℕ → Bool
waits_at ts none = false
waits_at ts (some i) = elim (get_elem? ts i) [ none ↦ false | some t ↦ is_waiting t.state ]

-- `_stopping`, which does nothing for a count.
unfoldable pub stopping : Places → TextWork → Option Places
stopping p w = if waits_at p.admission.tickets w.ticket then leave_ticket_at p w.ticket else some p

abbrev pub is_pending : Future → Bool
is_pending pending = true
is_pending resolved = false
is_pending cancelled = false

-- `cancel` of the task cancels the future that it awaits, unless that is done.
abbrev pub cancel_ticket_at : Admission → Option ℕ → Admission
cancel_ticket_at a none = a
cancel_ticket_at a (some i) = elim (get_elem? a.tickets i) [
  | none ↦ a
  | some t ↦ if is_pending t.granted then GenerationRuns.cancel a i t else a
]

abbrev pub cancel_count_at : CountPlaces → Option ℕ → CountPlaces
cancel_count_at p none = p
cancel_count_at p (some i) = elim (get_elem? p.tickets i) [
  | none ↦ p
  | some t ↦ if is_pending t.granted then CountRuns.cancel p i t else p
]

abbrev pub cancel_awaited : Phase → Places → TextWork → Places
cancel_awaited awaits_count_place p w = record p {
  count_places = cancel_count_at p.count_places w.count_place;
}
cancel_awaited awaits_place p w = record p { admission = cancel_ticket_at p.admission w.ticket }
cancel_awaited _ p w = p

-- `Work.stop` of a text work.
unfoldable pub stop_work : StopReason → Places → TextWork → Option (Places × TextWork)
stop_work reason p w =
    let stopped = record w { work = stop reason w.work } in
    if is_first_stop w.work
    then (stopping p w >>= λ q. some (cancel_awaited w.phase q w, stopped))
    else some (p, stopped)

-- What the client is told at the end, by `_answer_outcome`: nothing, an error, or the answer itself.
pub data Reply : Type 0 where
  silence answer : Reply
  error : Code → Reply

abbrev pub stop_reply : Option Code → Reply
stop_reply none = silence
stop_reply (some code) = error code

abbrev pub by_reason : Option StopReason → Reply
by_reason none = silence
by_reason (some reason) = stop_reply (stop_code reason)

unfoldable pub answer_outcome : Outcome → Option StopReason → Reply
answer_outcome cut_off reason = by_reason reason
answer_outcome ended_well reason = answer
answer_outcome (failed code) reason = error code
answer_outcome crashed reason = error internal_error
