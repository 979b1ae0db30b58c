-- ===== src/Admission.antt =====
-- simple_serving/admission.py: `Admission`, the Active and Waiting caps of generations.
-- `none` is an exception that no caller expects: a `deque.remove` that finds nothing, or a
-- reference to no ticket. The loop of `_dispatch` runs on fuel, and `none` also stands for fuel
-- that is used up; the fuel is one more than the tickets in line.
pub mod Invariant
pub mod Steps
pub mod Enter
pub mod Entered
pub mod Leave
pub mod Dispatch
pub mod Order
pub mod Runs
pub mod Wakes
mod Examples
use simple_serving.Prelude.{
  ℕ, zero, suc, ◌+◌, Bool, true, false, ◌||◌, not, Option, none, some, List, [], ◌∷◌, ◌++◌, ltb,
  leb, if◌then◌else◌, length, get_elem?, set, find, ◌>>=◌,
}
use simple_serving.Errors.{Result, ok, err, queue_full}
use simple_serving.Config.{
  ServiceClass, reader, agent, internal, external, is_shared, ClassLimits, Config,
}
use simple_serving.Line.{
  TicketState, waiting, active, left, Ticket, ticket, grant, depart, Line, empty, add, take_out,
  counts, size, in_order, up, down, owner_up, owner_down,
}

pub record Admission : Type 0 where
  pub limits : ServiceClass → ClassLimits
  pub per_key_active : ℕ
  pub per_key_waiting : ℕ
  pub shared_places : ℕ
  pub line : Line
  pub active : ServiceClass → ℕ
  pub owner_active : ℕ → ℕ
  pub owner_waiting : ℕ → ℕ
  pub tickets : List Ticket  -- the heap

-- `Admission.__init__`
unfoldable pub init : Config → Admission
init c = record {
  limits = c.limits;
  per_key_active = c.per_key_active;
  per_key_waiting = c.per_key_waiting;
  shared_places = c.shared_places;
  line = empty;
  active = λ _. 0;
  owner_active = λ _. 0;
  owner_waiting = λ _. 0;
  tickets = [];
}

-- Whether the ticket has an owner whose count has reached the cap.
abbrev pub owner_full : ℕ → (ℕ → ℕ) → Option ℕ → Bool
owner_full cap f none = false
owner_full cap f (some o) = leb cap (f o)

-- `sum(self._active[cls] for cls in SHARED)`
abbrev pub shared_active : (ServiceClass → ℕ) → ℕ
shared_active f = f agent + f internal + f external

unfoldable pub has_room : Admission → Ticket → Bool
has_room a t =
    if leb (a.limits t.cls).active (a.active t.cls)
    then false
    else if owner_full a.per_key_active a.owner_active t.owner
    then false
    else not (is_shared t.cls) || ltb (shared_active a.active) a.shared_places

-- `_activate`, of the ticket `t` that stands at `i`.
unfoldable pub activate : Admission → ℕ → Ticket → Admission
activate a i t = record a {
  active = up a.active t.cls;
  owner_active = owner_up a.owner_active t.owner;
  tickets = set a.tickets i (grant t);
}

-- `enter`: the new ticket stands last on the heap, and its reference is returned.
unfoldable pub enter : Admission → ServiceClass → Option ℕ → Result (Admission × ℕ)
enter a cls owner =
    let t = ticket cls owner in
    let i = length a.tickets in
    let made = record a { tickets = a.tickets ++ t ∷ [] } in
    if has_room a t
    then ok (activate made i t, i)
    else if leb (a.limits cls).waiting (counts a.line cls)
        || owner_full a.per_key_waiting a.owner_waiting owner
    then err queue_full
    else ok
        (record made { line = add a.line cls i; owner_waiting = owner_up a.owner_waiting owner }, i)

unfoldable pub room_at : Admission → ℕ → Bool
room_at a i = elim (get_elem? a.tickets i) [ none ↦ false | some t ↦ has_room a t ]

-- The first waiting ticket that has room: the test of the loop in `_dispatch`.
unfoldable pub next_ticket : Admission → Option ℕ
next_ticket a = find (room_at a) (in_order a.line)

-- The body of that loop.
unfoldable pub admit : Admission → ℕ → Option Admission
admit a i = do
  t ← get_elem? a.tickets i
  l ← take_out a.line t.cls i
  some (activate (record a { line = l; owner_waiting = owner_down a.owner_waiting t.owner }) i t)

unfoldable pub dispatch_loop : ℕ → Admission → Option Admission
dispatch_loop zero a = none
dispatch_loop (suc fuel) a = elim (next_ticket a) [
  | none ↦ some a
  | some i ↦ admit a i >>= λ b. dispatch_loop fuel b
]

unfoldable pub dispatch : Admission → Option Admission
dispatch a = dispatch_loop (suc (size a.line)) a

-- What `leave` does before it dispatches, for each state of the ticket.
unfoldable pub leave_place : TicketState → Admission → ℕ → Ticket → Option Admission
leave_place left a i t = some a
leave_place waiting a i t = do
  l ← take_out a.line t.cls i
  some (record a {
    line = l;
    owner_waiting = owner_down a.owner_waiting t.owner;
    tickets = set a.tickets i (depart t);
  })
leave_place active a i t = some (record a {
  active = down a.active t.cls;
  owner_active = owner_down a.owner_active t.owner;
  tickets = set a.tickets i (depart t);
})

-- `if ticket.state == "left": return` leaves the dispatch out too.
abbrev pub dispatch_unless_left : TicketState → Admission → Option Admission
dispatch_unless_left left b = some b
dispatch_unless_left waiting b = dispatch b
dispatch_unless_left active b = dispatch b

unfoldable pub leave : Admission → ℕ → Option Admission
leave a i = do
  t ← get_elem? a.tickets i
  b ← leave_place t.state a i t
  dispatch_unless_left t.state b

unfoldable pub active_counts : Admission → ServiceClass → ℕ
active_counts a = a.active

unfoldable pub waiting_counts : Admission → ServiceClass → ℕ
waiting_counts a = counts a.line
