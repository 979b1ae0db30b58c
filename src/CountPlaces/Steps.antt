-- ===== src/CountPlaces/Steps.antt =====
-- Each part of the operations keeps the counters exact and the caps.
use simple_serving.Prelude.{ℕ, suc, true, some, ◌≡◌, refl, arith, get_elem?, set, count-set, ltb}
use simple_serving.Line.{
  Ticket, TicketState, waiting, active, left, grant, depart, Line, down, owner_down, size,
}
use simple_serving.Line.Laws.{Holds, Holds-set, take_out-Holds}
use simple_serving.Admission.Invariant.{runs_in}
use simple_serving.CountPlaces.{CountPlaces, total, run, admit, give_up}
use simple_serving.CountPlaces.Invariant.{here_for, IsSound, SameLimits, SameLimits-refl}

module _ (p : CountPlaces) (i : ℕ) (t : Ticket) (at : get_elem? p.tickets i ≡ some t) where
  module _ (l : Line) where
    admitted : CountPlaces
    unfolding run
    admitted = run (record p { line = l }) i t

    admitted-IsSound :
        t.state ≡ waiting
        → ltb (total p.running) p.places ≡ true
        → Holds l (set p.tickets i (grant t))
        → IsSound p
        → IsSound admitted
    unfolding admitted grant
    admitted-IsSound w r h v = record {
      counted = record {
        line = h;
        running = λ c.
            ground (arith, v.counted.running c, count-set (runs_in c) p.tickets i t (grant t) at);
        by_owner = λ k.
            ground (arith, v.counted.by_owner k, count-set (here_for k) p.tickets i t (grant t) at);
      };
      capped = record {
        running = ground (arith, v.capped.running);
        by_owner = λ k. v.capped.by_owner k;
      };
    }

    waited : CountPlaces
    waited = record p {
      line = l;
      by_owner = owner_down p.by_owner t.owner;
      tickets = set p.tickets i (depart t);
    }

    waited-IsSound :
        t.state ≡ waiting → Holds l (set p.tickets i (depart t)) → IsSound p → IsSound waited
    unfolding waited depart
    waited-IsSound w h v = record {
      counted = record {
        line = h;
        running = λ c.
            ground (arith, v.counted.running c, count-set (runs_in c) p.tickets i t (depart t) at);
        by_owner = λ k.
            ground
              (arith, v.counted.by_owner k, count-set (here_for k) p.tickets i t (depart t) at);
      };
      capped = record {
        running = v.capped.running;
        by_owner = λ k. ground (arith, v.capped.by_owner k);
      };
    }

  ran : CountPlaces
  ran = record p {
    running = down p.running t.cls;
    by_owner = owner_down p.by_owner t.owner;
    tickets = set p.tickets i (depart t);
  }

  ran-IsSound : t.state ≡ active → IsSound p → IsSound ran
  unfolding ran depart
  ran-IsSound w v = record {
    counted = record {
      line = Holds-set p.line p.tickets i t (depart t) v.counted.line at (ground arith) refl;
      running = λ c.
          ground (arith, v.counted.running c, count-set (runs_in c) p.tickets i t (depart t) at);
      by_owner = λ k.
          ground (arith, v.counted.by_owner k, count-set (here_for k) p.tickets i t (depart t) at);
    };
    capped = record {
      running = ground (arith, v.capped.running);
      by_owner = λ k. ground (arith, v.capped.by_owner k);
    };
  }

  abbrev pub Admits : Type 0
  Admits =
      (q : CountPlaces) × (admit p i ≡ some q)
      × IsSound q
      × (size p.line ≡ suc (size q.line))
      × SameLimits p q

  pub admit-IsSound : t.state ≡ waiting → ltb (total p.running) p.places ≡ true → IsSound p → Admits
  unfolding admit admitted grant
  admit-IsSound w r v =
      let (l, e, h, s) = take_out-Holds p.line p.tickets i t (grant t) v.counted.line at w refl in
      (
        admitted l,
        rw at (rw e refl),
        admitted-IsSound l w r h v,
        s,
        record { places = refl; per_key = refl },
      )

  pub give_up-IsSound :
      (s : TicketState)
      → t.state ≡ s
      → IsSound p
      → (q : CountPlaces) × (give_up s p i t ≡ some q) × IsSound q × SameLimits p q
  unfolding give_up waited ran depart
  give_up-IsSound left w v = (p, refl, v, SameLimits-refl p)
  give_up-IsSound active w v =
      (ran, refl, ran-IsSound w v, record { places = refl; per_key = refl })
  give_up-IsSound waiting w v =
      let (l, e, h, _) = take_out-Holds p.line p.tickets i t (depart t) v.counted.line at w refl in
      (waited l, rw e refl, waited-IsSound l w h v, record { places = refl; per_key = refl })
