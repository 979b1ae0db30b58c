-- ===== src/Line.antt =====
-- simple_serving/admission.py: tickets and the line that they wait in.
-- Ticket objects stand on a heap, the list of all tickets made so far: a reference is a position in
-- it. An owner is the digest of its key, since the keys of a configuration differ in their digests.
pub mod Laws
pub mod Order
use simple_serving.Prelude.{
  ℕ, ◌+◌, ◌-◌, Bool, true, false, ◌&&◌, Option, none, some, List, [], ◌∷◌, ◌++◌, length, remove,
  ◌==◌, if◌then◌else◌, ◌>>=◌,
}
use simple_serving.Config.{ServiceClass, reader, agent, internal, external, class_eq}

pub data TicketState : Type 0 where
  waiting active left : TicketState

-- The states of an `asyncio.Future` that a ticket's `granted` can be in.
pub data Future : Type 0 where
  pending resolved cancelled : Future

pub record Ticket : Type 0 where
  pub cls : ServiceClass
  pub owner : Option ℕ
  pub state : TicketState
  pub granted : Future

-- `Ticket.__init__`
unfoldable pub ticket : ServiceClass → Option ℕ → Ticket
ticket cls owner = record { cls = cls; owner = owner; state = waiting; granted = pending }

abbrev pub is_waiting : TicketState → Bool
is_waiting waiting = true
is_waiting active = false
is_waiting left = false

abbrev pub is_active : TicketState → Bool
is_active active = true
is_active waiting = false
is_active left = false

-- `set_result`, unless the future is done.
abbrev pub resolve : Future → Future
resolve pending = resolved
resolve resolved = resolved
resolve cancelled = cancelled

-- `_grant`
unfoldable pub grant : Ticket → Ticket
grant t = record t { state = active; granted = resolve t.granted }

-- `ticket.state = "left"`
unfoldable pub depart : Ticket → Ticket
depart t = record t { state = left }

-- One queue per class, the oldest first.
pub record Line : Type 0 where
  pub queue : ServiceClass → List ℕ

-- An entry of a dictionary over the classes, written.
abbrev pub update {ℓ} : {A : Type ℓ} → (ServiceClass → A) → ServiceClass → A → ServiceClass → A
update f c v d = if class_eq c d then v else f d

abbrev pub empty : Line
empty = record { queue = λ _. [] }

unfoldable pub add : Line → ServiceClass → ℕ → Line
add l c i = record { queue = update l.queue c (l.queue c ++ i ∷ []) }

unfoldable pub take_out : Line → ServiceClass → ℕ → Option Line
take_out l c i = remove i (l.queue c) >>= λ js. some (record { queue = update l.queue c js })

unfoldable pub counts : Line → ServiceClass → ℕ
counts l c = length (l.queue c)

-- `__len__`
unfoldable pub size : Line → ℕ
unfolding counts
size l = counts l reader + counts l agent + counts l internal + counts l external

unfoldable pub in_order : Line → List ℕ
in_order l = l.queue reader ++ (l.queue agent ++ (l.queue internal ++ l.queue external))

-- A counter over the classes, one up or one down at a class.
abbrev pub up : (ServiceClass → ℕ) → ServiceClass → ServiceClass → ℕ
up f c d = if class_eq c d then f d + 1 else f d

abbrev pub down : (ServiceClass → ℕ) → ServiceClass → ServiceClass → ℕ
down f c d = if class_eq c d then f d - 1 else f d

-- A counter over the outside keys, changed only if the ticket has an owner.
abbrev pub owner_up : (ℕ → ℕ) → Option ℕ → ℕ → ℕ
owner_up f none k = f k
owner_up f (some o) k = if o == k then f k + 1 else f k

abbrev pub owner_down : (ℕ → ℕ) → Option ℕ → ℕ → ℕ
owner_down f none k = f k
owner_down f (some o) k = if o == k then f k - 1 else f k
