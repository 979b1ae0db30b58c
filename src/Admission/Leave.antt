-- ===== src/Admission/Leave.antt =====
-- A ticket that gives up its place, before the dispatch that follows.
use simple_serving.Prelude.{ℕ, some, ◌≡◌, refl, arith, get_elem?, set, count-set}
use simple_serving.Line.{Ticket, TicketState, waiting, active, left, depart, Line, down, owner_down}
use simple_serving.Line.Laws.{Holds, Holds-set, take_out-Holds, counts-Holds, waits_in}
use simple_serving.Admission.{Admission, leave_place}
use simple_serving.Admission.Invariant.{IsSound, runs_in, runs_for, waits_for, SameLimits}

pub same : (a : Admission) → SameLimits a a
same a = record { limits = refl; per_key_active = refl; per_key_waiting = refl; shared = refl }

abbrev pub GivesUp : TicketState → Admission → ℕ → Ticket → Type 0
GivesUp s a i t = (b : Admission) × (leave_place s a i t ≡ some b) × IsSound b × SameLimits a b

module _ (a : Admission) (i : ℕ) (t : Ticket) (at : get_elem? a.tickets i ≡ some t) where
  module _ (w : t.state ≡ waiting) (l : Line) (h : Holds l (set a.tickets i (depart t))) where
    waited : Admission
    waited = record a {
      line = l;
      owner_waiting = owner_down a.owner_waiting t.owner;
      tickets = set a.tickets i (depart t);
    }

    waited-IsSound : IsSound a → IsSound waited
    unfolding waited depart
    waited-IsSound v = record {
      counted = record {
        line = h;
        active = λ c.
            ground (arith, v.counted.active c, count-set (runs_in c) a.tickets i t (depart t) at);
        owner_active = λ k.
            ground
              (arith, v.counted.owner_active k, count-set (runs_for k) a.tickets i t (depart t) at);
        owner_waiting = λ k.
            ground (
              arith,
              v.counted.owner_waiting k,
              count-set (waits_for k) a.tickets i t (depart t) at,
            );
      };
      capped = record {
        active = λ c. v.capped.active c;
        owner_active = λ k. v.capped.owner_active k;
        shared = v.capped.shared;
        waiting = λ c. ground (
          arith,
          v.capped.waiting c,
          counts-Holds a.line a.tickets c v.counted.line,
          counts-Holds l (set a.tickets i (depart t)) c h,
          count-set (waits_in c) a.tickets i t (depart t) at,
        );
        owner_waiting = λ k. ground (arith, v.capped.owner_waiting k);
      };
    }

  ran : Admission
  ran = record a {
    active = down a.active t.cls;
    owner_active = owner_down a.owner_active t.owner;
    tickets = set a.tickets i (depart t);
  }

  ran-IsSound : t.state ≡ active → IsSound a → IsSound ran
  unfolding ran depart
  ran-IsSound w v = record {
    counted = record {
      line = Holds-set a.line a.tickets i t (depart t) v.counted.line at (ground arith) refl;
      active = λ c.
          ground (arith, v.counted.active c, count-set (runs_in c) a.tickets i t (depart t) at);
      owner_active = λ k.
          ground
            (arith, v.counted.owner_active k, count-set (runs_for k) a.tickets i t (depart t) at);
      owner_waiting = λ k.
          ground
            (arith, v.counted.owner_waiting k, count-set (waits_for k) a.tickets i t (depart t) at);
    };
    capped = record {
      active = λ c. ground (arith, v.capped.active c);
      owner_active = λ k. ground (arith, v.capped.owner_active k);
      shared = ground (arith, v.capped.shared);
      waiting = λ c. v.capped.waiting c;
      owner_waiting = λ k. v.capped.owner_waiting k;
    };
  }

  -- Whatever the state of the ticket, `leave` does not raise before the dispatch.
  pub leave_place-IsSound : (s : TicketState) → t.state ≡ s → IsSound a → GivesUp s a i t
  unfolding leave_place waited ran depart
  leave_place-IsSound left w v = (a, refl, v, same a)
  leave_place-IsSound active w v = (
    ran,
    refl,
    ran-IsSound w v,
    record { limits = refl; per_key_active = refl; per_key_waiting = refl; shared = refl },
  )
  leave_place-IsSound waiting w v =
      let (l, e, h, _) = take_out-Holds a.line a.tickets i t (depart t) v.counted.line at w refl in
      (
        waited w l h,
        rw e refl,
        waited-IsSound w l h v,
        record { limits = refl; per_key_active = refl; per_key_waiting = refl; shared = refl },
      )
