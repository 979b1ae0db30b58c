-- ===== src/CountPlaces/Invariant.antt =====
-- What holds of `CountPlaces` between two calls.
use simple_serving.Prelude.{ℕ, ◌≤◌, Bool, true, false, ◌&&◌, some, ◌≡◌, arith, count, get_elem?}
use simple_serving.Config.{ServiceClass}
use simple_serving.Line.{TicketState, waiting, active, left, Ticket}
use simple_serving.Line.Laws.{Holds}
use simple_serving.Admission.Invariant.{owned_by, runs_in}
use simple_serving.CountPlaces.{CountPlaces, total}

abbrev pub is_here : TicketState → Bool
is_here waiting = true
is_here active = true
is_here left = false

-- The tickets that count against an outside key: the waiting ones too.
abbrev pub here_for : ℕ → Ticket → Bool
here_for k t = is_here t.state && owned_by k t.owner

pub record IsCounted (p : CountPlaces) : Type 0 where
  pub line : Holds p.line p.tickets
  pub running : (c : ServiceClass) → p.running c ≡ count (runs_in c) p.tickets
  pub by_owner : (k : ℕ) → p.by_owner k ≡ count (here_for k) p.tickets

pub record IsCapped (p : CountPlaces) : Type 0 where
  pub running : total p.running ≤ p.places
  pub by_owner : (k : ℕ) → p.by_owner k ≤ p.per_key

pub record IsSound (p : CountPlaces) : Type 0 where
  pub counted : IsCounted p
  pub capped : IsCapped p

-- While a ticket waits, every place is taken.
abbrev pub IsSettled : CountPlaces → Type 0
IsSettled p =
    (i : ℕ) (t : Ticket)
    → get_elem? p.tickets i ≡ some t
    → t.state ≡ waiting
    → p.places ≤ total p.running

-- No operation changes the configured caps.
pub record SameLimits (p q : CountPlaces) : Type 0 where
  pub places : q.places ≡ p.places
  pub per_key : q.per_key ≡ p.per_key

pub SameLimits-refl : (p : CountPlaces) → SameLimits p p
SameLimits-refl p = ground arith

pub SameLimits-trans : {p q r : CountPlaces} → SameLimits p q → SameLimits q r → SameLimits p r
SameLimits-trans f g = ground arith
