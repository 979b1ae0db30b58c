-- ===== src/Inference/Busy.antt =====
-- What stands in the way of a ticket that waits: some ticket that is active.
use simple_serving.Prelude.{
  ℕ, ◌≡◌, arith, inl, inr, Bool, true, false, Option, none, some, [], ◌≤◌, get_elem?, Bool-cases,
  leb,
}
use simple_serving.Errors.{err, internal_error}
use simple_serving.Config.{ServiceClass, reader, agent, internal, external, Config}
use simple_serving.Line.{Ticket, is_active}
use simple_serving.TextLane.{Service}
use simple_serving.Relay.{closed}
use simple_serving.Admission.{Admission, has_room, owner_full, shared_active}
use simple_serving.Admission.Invariant.{IsSound, runs_in, runs_for}
use simple_serving.CountPlaces.{CountPlaces, total}
use simple_serving.CountPlaces.Invariant.{is_here}
use simple_serving.CountPlaces as Counts
use simple_serving.Inference.{
  TextWork, Phase, created, awaits_count_place, counts, awaits_place, generates, relays, ended,
  released, Places,
}
use simple_serving.Inference.Steps.{
  Event, begins, count_place_granted, place_granted, cancel_arrives, cleans, count_answered,
  generate_answered, stream_ended, is_granted, is_ready,
}
use simple_serving.Inference.Idle.{count_positive}

-- Every class, key and count has a place.
pub record HasPlaces (c : Config) : Type 0 where
  pub classes : (cls : ServiceClass) → 1 ≤ (c.limits cls).active
  pub keys : 1 ≤ c.per_key_active
  pub shared : 1 ≤ c.shared_places
  pub counts : 1 ≤ c.count_active

-- The event that a task waits for; the engine's answers are refusals here.
abbrev pub awaited : Service → Phase → Bool → Event
awaited s (ended o) cancelled = cleans
awaited s (released o) cancelled = cleans
awaited s created false = begins
awaited s awaits_count_place false = count_place_granted
awaited s counts false = count_answered s (err internal_error)
awaited s awaits_place false = place_granted
awaited s generates false = generate_answered (err internal_error)
awaited s relays false = stream_ended [] 0 [] closed
awaited s _ true = cancel_arrives

-- Whether the task can be resumed with it.
abbrev pub goes_on : Phase → Bool → Bool → Bool
goes_on (released o) cancelled granted = false
goes_on (ended o) cancelled granted = true
goes_on awaits_count_place false granted = granted
goes_on awaits_place false granted = granted
goes_on _ _ granted = true

pub awaited-ready :
    (s : Service) (p : Places) (w : TextWork)
    → goes_on w.phase w.work.cancelled (is_granted w.phase p w) ≡ true
    → is_ready (awaited s w.phase w.work.cancelled) p w ≡ true
unfolding is_ready
awaited-ready s p w h = ground arith

unfoldable pub BusyTicket : (a : Admission) → Type 0
BusyTicket a =
    (j : ℕ) × (u : Ticket) × (get_elem? a.tickets j ≡ some u) × (is_active u.state ≡ true)

class_busy : (a : Admission) (cls : ServiceClass) → IsSound a → 1 ≤ a.active cls → BusyTicket a
unfolding BusyTicket
class_busy a cls v h =
    let (j, u, g, x) =
      count_positive (runs_in cls) a.tickets (ground (arith, v.counted.active cls)) in
    (j, u, g, ground arith)

owner_busy : (a : Admission) (k : ℕ) → IsSound a → 1 ≤ a.owner_active k → BusyTicket a
unfolding BusyTicket
owner_busy a k v h =
    let (j, u, g, x) =
      count_positive (runs_for k) a.tickets (ground (arith, v.counted.owner_active k)) in
    (j, u, g, ground arith)

owner_at_cap :
    (a : Admission) (owner : Option ℕ)
    → IsSound a
    → 1 ≤ a.per_key_active
    → owner_full a.per_key_active a.owner_active owner ≡ true
    → BusyTicket a
owner_at_cap a none v h x = absurd (ground arith)
owner_at_cap a (some o) v h x = owner_busy a o v (ground arith)

shared_busy : (a : Admission) → IsSound a → 1 ≤ shared_active a.active → BusyTicket a
shared_busy a v h = elim (Bool-cases (leb 1 (a.active agent))) [
  | inl x ↦ class_busy a agent v (ground arith)
  | inr x ↦ elim (Bool-cases (leb 1 (a.active internal))) [
    | inl y ↦ class_busy a internal v (ground arith)
    | inr y ↦ class_busy a external v (ground arith)
  ]
]

-- A ticket without room has someone before it.
pub no_room_busy :
    (a : Admission) (t : Ticket)
    → IsSound a
    → ((cls : ServiceClass) → 1 ≤ (a.limits cls).active)
    → 1 ≤ a.per_key_active
    → 1 ≤ a.shared_places
    → has_room a t ≡ false
    → BusyTicket a
unfolding has_room
no_room_busy a t v x y z h = elim (Bool-cases (leb (a.limits t.cls).active (a.active t.cls))) [
  | inl e ↦ class_busy a t.cls v (ground (arith, x t.cls))
  | inr e ↦ elim (Bool-cases (owner_full a.per_key_active a.owner_active t.owner)) [
    | inl f ↦ owner_at_cap a t.owner v y f
    | inr f ↦ shared_busy a v (ground arith)
  ]
]

pub count_busy :
    (p : CountPlaces)
    → Counts.Invariant.IsSound p
    → 1 ≤ total p.running
    → (j : ℕ) × (u : Ticket) × (get_elem? p.tickets j ≡ some u) × (is_active u.state ≡ true)
count_busy p v h = elim (Bool-cases (leb 1 (p.running reader))) [
  | inl x ↦ of reader (ground arith)
  | inr x ↦ elim (Bool-cases (leb 1 (p.running agent))) [
    | inl y ↦ of agent (ground arith)
    | inr y ↦ elim (Bool-cases (leb 1 (p.running internal))) [
      | inl z ↦ of internal (ground arith)
      | inr z ↦ of external (ground arith)
    ]
  ]
]
  where
    of :
        (cls : ServiceClass)
        → 1 ≤ p.running cls
        → (j : ℕ) × (u : Ticket) × (get_elem? p.tickets j ≡ some u) × (is_active u.state ≡ true)
    of cls n =
        let (j, u, g, x) =
          count_positive (runs_in cls) p.tickets (ground (arith, v.counted.running cls)) in
        (j, u, g, ground arith)
