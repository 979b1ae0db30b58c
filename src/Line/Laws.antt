-- ===== src/Line/Laws.antt =====
-- What a line holds: exactly the waiting tickets of the heap, each class in order of arrival.

use simple_serving.Prelude.{
  ℕ, suc, Bool, false, ◌&&◌, some, List, [], ◌∷◌, ◌++◌, ◌≡◌, refl, inl, inr, arith, length,
  get_elem?, set, count, positions, remove, Bool-cases, length-remove, positions-append,
  positions-append_none, positions-set_same, remove-positions, count-positions,
}
use simple_serving.Config.{ServiceClass, class_eq, eq_of_class_eq}
use simple_serving.Line.{waiting, Ticket, is_waiting, Line, update, add, take_out, counts, size}

-- The tickets that a class's queue holds.
abbrev pub waits_in : ServiceClass → Ticket → Bool
waits_in c t = is_waiting t.state && class_eq t.cls c

pub record Holds (l : Line) (ts : List Ticket) : Type 0 where
  pub queues : (c : ServiceClass) → l.queue c ≡ positions (waits_in c) 0 ts

pub Holds-none : Holds (record { queue = λ _. [] }) []
Holds-none = record { queues = λ c. refl }

pub Holds-add :
    (l : Line) (ts : List Ticket) (t : Ticket)
    → Holds l ts
    → t.state ≡ waiting
    → Holds (add l t.cls (length ts)) (ts ++ t ∷ [])
unfolding add
Holds-add l ts t h w = record {
  queues = λ c. elim (Bool-cases (class_eq t.cls c)) [
    | inl e ↦
        ground (arith, h.queues c, positions-append (waits_in c) ts t, eq_of_class_eq t.cls c e)
    | inr e ↦ ground (arith, h.queues c, positions-append_none (waits_in c) 0 ts t)
  ];
}

-- A ticket that is active at once is in no queue.
pub Holds-skip :
    (l : Line) (ts : List Ticket) (t : Ticket)
    → Holds l ts
    → is_waiting t.state ≡ false
    → Holds l (ts ++ t ∷ [])
Holds-skip l ts t h w = record {
  queues = λ c. ground (arith, h.queues c, positions-append_none (waits_in c) 0 ts t);
}

pub Holds-set :
    (l : Line) (ts : List Ticket) (i : ℕ) (t u : Ticket)
    → Holds l ts
    → get_elem? ts i ≡ some t
    → is_waiting t.state ≡ false
    → is_waiting u.state ≡ false
    → Holds l (set ts i u)
Holds-set l ts i t u h g w v = record {
  queues = λ c. ground (arith, h.queues c, positions-set_same (waits_in c) 0 ts i t u g);
}

abbrev TakenOut : Line → List Ticket → ℕ → Ticket → Ticket → Type 0
TakenOut l ts i t u =
    (m : Line) × (take_out l t.cls i ≡ some m) × Holds m (set ts i u) × (size l ≡ suc (size m))

size-update :
    (l : Line) (c : ServiceClass) (js : List ℕ)
    → length (l.queue c) ≡ suc (length js)
    → size l ≡ suc (size (record { queue = update l.queue c js }))
unfolding size
size-update l c js h = ground arith

-- A waiting ticket that changes its state leaves its queue, which `remove` finds it in.
pub take_out-Holds :
    (l : Line) (ts : List Ticket) (i : ℕ) (t u : Ticket)
    → Holds l ts
    → get_elem? ts i ≡ some t
    → t.state ≡ waiting
    → is_waiting u.state ≡ false
    → TakenOut l ts i t u
unfolding take_out
take_out-Holds l ts i t u h g w v =
    let js : List ℕ = positions (waits_in t.cls) 0 (set ts i u) in
    let e : remove i (l.queue t.cls) ≡ some js =
      rw (h.queues t.cls)
        (remove-positions (waits_in t.cls) ts i t u g (ground arith) (ground arith)) in
    (
      record { queue = update l.queue t.cls js },
      rw e,
      record {
        queues = λ c. ground (
          arith,
          h.queues c,
          eq_of_class_eq t.cls c,
          positions-set_same (waits_in c) 0 ts i t u g,
        );
      },
      size-update l t.cls js (length-remove i (l.queue t.cls) js e),
    )

-- The length of a queue is the number of the class's waiting tickets.
pub counts-Holds :
    (l : Line) (ts : List Ticket) (c : ServiceClass)
    → Holds l ts
    → counts l c ≡ count (waits_in c) ts
unfolding counts
counts-Holds l ts c h = rw (h.queues c) (count-positions (waits_in c) 0 ts)
