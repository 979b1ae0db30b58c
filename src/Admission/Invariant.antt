-- ===== src/Admission/Invariant.antt =====
-- What holds of an `Admission` between two calls: its counters count the tickets, every cap is
-- kept, and no ticket waits that has room.
use simple_serving.Prelude.{
  ℕ, ◌≤◌, Bool, ◌&&◌, Option, none, some, ◌≡◌, arith, ◌==◌, count, get_elem?, false,
}
use simple_serving.Config.{ServiceClass, class_eq}
use simple_serving.Line.{Ticket, is_waiting, is_active, counts, waiting}
use simple_serving.Line.Laws.{Holds}
use simple_serving.Admission.{Admission, shared_active, has_room}

abbrev pub owned_by : ℕ → Option ℕ → Bool
owned_by k none = false
owned_by k (some o) = o == k

abbrev pub runs_in : ServiceClass → Ticket → Bool
runs_in c t = is_active t.state && class_eq t.cls c

abbrev pub runs_for : ℕ → Ticket → Bool
runs_for k t = is_active t.state && owned_by k t.owner

abbrev pub waits_for : ℕ → Ticket → Bool
waits_for k t = is_waiting t.state && owned_by k t.owner

-- The counters are those of the tickets on the heap.
pub record IsCounted (a : Admission) : Type 0 where
  pub line : Holds a.line a.tickets
  pub active : (c : ServiceClass) → a.active c ≡ count (runs_in c) a.tickets
  pub owner_active : (k : ℕ) → a.owner_active k ≡ count (runs_for k) a.tickets
  pub owner_waiting : (k : ℕ) → a.owner_waiting k ≡ count (waits_for k) a.tickets

pub record IsCapped (a : Admission) : Type 0 where
  pub active : (c : ServiceClass) → a.active c ≤ (a.limits c).active
  pub owner_active : (k : ℕ) → a.owner_active k ≤ a.per_key_active
  pub shared : shared_active a.active ≤ a.shared_places
  pub waiting : (c : ServiceClass) → counts a.line c ≤ (a.limits c).waiting
  pub owner_waiting : (k : ℕ) → a.owner_waiting k ≤ a.per_key_waiting

pub record IsSound (a : Admission) : Type 0 where
  pub counted : IsCounted a
  pub capped : IsCapped a

-- No waiting ticket has room.
abbrev pub IsSettled : Admission → Type 0
IsSettled a =
    (i : ℕ) (t : Ticket) → get_elem? a.tickets i ≡ some t → t.state ≡ waiting → has_room a t ≡ false

-- No operation changes the configured limits.
pub record SameLimits (a b : Admission) : Type 0 where
  pub limits : b.limits ≡ a.limits
  pub per_key_active : b.per_key_active ≡ a.per_key_active
  pub per_key_waiting : b.per_key_waiting ≡ a.per_key_waiting
  pub shared : b.shared_places ≡ a.shared_places

pub SameLimits-trans : {a b c : Admission} → SameLimits a b → SameLimits b c → SameLimits a c
SameLimits-trans p q = ground arith
