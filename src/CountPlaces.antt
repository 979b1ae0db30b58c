-- ===== src/CountPlaces.antt =====
-- simple_serving/admission.py: `CountPlaces`, the places of counts. As in the model of
-- `Admission`, `none` is an unexpected exception or fuel that is used up, and the fuel of the
-- loop in `leave` is one more than the tickets in line.
pub mod Invariant
pub mod Steps
pub mod Filling
pub mod Runs
mod Examples
use simple_serving.Prelude.{
  ℕ, zero, suc, ◌+◌, Bool, true, false, Option, none, some, List, [], ◌∷◌, ◌++◌, ltb, leb,
  if◌then◌else◌, length, get_elem?, set, find, ◌>>=◌,
}
use simple_serving.Errors.{Result, ok, err, queue_full}
use simple_serving.Config.{ServiceClass, reader, agent, internal, external, Config}
use simple_serving.Line.{
  TicketState, waiting, active, left, Ticket, ticket, grant, depart, Line, empty, add, take_out,
  counts, size, in_order, up, down, owner_up, owner_down,
}
use simple_serving.Admission.{owner_full}

pub record CountPlaces : Type 0 where
  pub places : ℕ
  pub per_key : ℕ
  pub line : Line
  pub running : ServiceClass → ℕ
  pub by_owner : ℕ → ℕ
  pub tickets : List Ticket  -- the heap

-- `CountPlaces.__init__`
unfoldable pub init : Config → CountPlaces
init c = record {
  places = c.count_active;
  per_key = c.count_per_outside_key;
  line = empty;
  running = λ _. 0;
  by_owner = λ _. 0;
  tickets = [];
}

-- The property `running`, the sum of a counter's values.
abbrev pub total : (ServiceClass → ℕ) → ℕ
total f = f reader + f agent + f internal + f external

-- `self._running[cls] += 1; _grant(ticket)`, of the ticket `t` that stands at `i`.
unfoldable pub run : CountPlaces → ℕ → Ticket → CountPlaces
run p i t = record p { running = up p.running t.cls; tickets = set p.tickets i (grant t) }

-- `enter`
unfoldable pub enter : CountPlaces → ServiceClass → Option ℕ → Result (CountPlaces × ℕ)
enter p cls owner =
    if owner_full p.per_key p.by_owner owner
    then err queue_full
    else (let t = ticket cls owner in
        let i = length p.tickets in
        let made = record p {
          tickets = p.tickets ++ t ∷ [];
          by_owner = owner_up p.by_owner owner;
        } in
        if ltb (total p.running) p.places
        then ok (run made i t, i)
        else ok (record made { line = add p.line cls i }, i))

-- `next(self._line.in_order(), None)`
unfoldable pub first_in_line : CountPlaces → Option ℕ
first_in_line p = find (λ _. true) (in_order p.line)

-- The test of the loop in `leave`, with the ticket that it binds.
unfoldable pub next_count : CountPlaces → Option ℕ
next_count p = if ltb (total p.running) p.places then first_in_line p else none

-- The body of that loop.
unfoldable pub admit : CountPlaces → ℕ → Option CountPlaces
admit p i = do
  t ← get_elem? p.tickets i
  l ← take_out p.line t.cls i
  some (run (record p { line = l }) i t)

unfoldable pub fill_loop : ℕ → CountPlaces → Option CountPlaces
fill_loop zero p = none
fill_loop (suc fuel) p = elim (next_count p) [
  | none ↦ some p
  | some i ↦ admit p i >>= λ q. fill_loop fuel q
]

unfoldable pub fill : CountPlaces → Option CountPlaces
fill p = fill_loop (suc (size p.line)) p

-- What `leave` does before its loop, for each state of the ticket.
unfoldable pub give_up : TicketState → CountPlaces → ℕ → Ticket → Option CountPlaces
give_up left p i t = some p
give_up waiting p i t = do
  l ← take_out p.line t.cls i
  some (record p {
    line = l;
    by_owner = owner_down p.by_owner t.owner;
    tickets = set p.tickets i (depart t);
  })
give_up active p i t = some (record p {
  running = down p.running t.cls;
  by_owner = owner_down p.by_owner t.owner;
  tickets = set p.tickets i (depart t);
})

-- A ticket that has left already returns before the loop.
abbrev pub fill_unless_left : TicketState → CountPlaces → Option CountPlaces
fill_unless_left left p = some p
fill_unless_left waiting p = fill p
fill_unless_left active p = fill p

unfoldable pub leave : CountPlaces → ℕ → Option CountPlaces
leave p i = do t ← get_elem? p.tickets i; q ← give_up t.state p i t; fill_unless_left t.state q

unfoldable pub active_counts : CountPlaces → ServiceClass → ℕ
active_counts p = p.running

unfoldable pub waiting_counts : CountPlaces → ServiceClass → ℕ
waiting_counts p = counts p.line

-- The property `waiting`.
unfoldable pub waiting_total : CountPlaces → ℕ
waiting_total p = size p.line
