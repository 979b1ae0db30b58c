-- ===== src/Inference/Effects.antt =====
-- What a work does to the shared places, one call at a time: the lines stay in reachable states, and
-- the tickets stay with their works.
use simple_serving.Prelude.{
  ℕ, ◌≡◌, ◌≢◌, refl, arith, inl, inr, Bool, true, false, Option, none, some, List, get_elem?,
  Option-cases, Bool-cases,
}
use simple_serving.Errors.{ok}
use simple_serving.Config.{ServiceClass, Config}
use simple_serving.Line.{Ticket, cancelled}
use simple_serving.Admission.{Admission}
use simple_serving.CountPlaces.{CountPlaces}
use simple_serving.Admission.Runs.{Reach-IsSound}
use simple_serving.Admission.Dispatch.{leave_total}
use simple_serving.CountPlaces.Runs.{Reach-Kept}
use simple_serving.CountPlaces.Filling.{count_leave_total}
use simple_serving.Admission as Generations
use simple_serving.CountPlaces as Counts
use simple_serving.Admission.Runs as GenerationRuns
use simple_serving.CountPlaces.Runs as CountRuns
use simple_serving.Inference.{Places, leave_count_at, leave_ticket_at}
use simple_serving.Inference.Stop.{cancel_ticket_at, cancel_count_at, is_pending}
use simple_serving.Inference.Heap.{slot, put, put_self, slot-set_same, enter-slot, leave-slot}
use simple_serving.Inference.CountHeap.{count-enter-slot, count-leave-slot}
use simple_serving.Inference.Owned.{Owned, Owned-enter, Owned-leave, Owned-stop, Owned-same}

all : ℕ → Bool
all k = true

at_slot : (ts : List Ticket) (i : ℕ) → slot ts i ≢ none → (t : Ticket) × (get_elem? ts i ≡ some t)
at_slot ts i n = elim (Option-cases (get_elem? ts i)) [
  | inl e ↦ absurd (n (ground arith))
  | inr found ↦ found
]

-- The places while the work at `k` has the ticket `t` and the count's ticket `n`, and must have a
-- ticket that has not left if `m`; the other works' tickets are given by position.
module _ (c : Config) (k : ℕ) (others counting : ℕ → Option ℕ) (must : ℕ → Bool) where
  pub record KeptAt (p : Places) (t n : Option ℕ) (m : Bool) : Type 0 where
    pub admitted : GenerationRuns.Reach (Generations.init c) p.admission
    pub placed : CountRuns.Reach (Counts.init c) p.count_places
    pub tickets : Owned (put k t others) (put k m must) (slot p.admission.tickets)
    pub counts : Owned (put k n counting) (put k true (λ _. true)) (slot p.count_places.tickets)

  pub KeptAt-weaker :
      (p : Places) (t n : Option ℕ) (m m' : Bool)
      → (m' ≡ true → m ≡ true)
      → KeptAt p t n m
      → KeptAt p t n m'
  KeptAt-weaker p t n m m' h v = record {
    admitted = v.admitted;
    placed = v.placed;
    tickets = Owned-same k others must t m m' h (λ j. refl) v.tickets;
    counts = v.counts;
  }

  ticket_there :
      (p : Places) (i : ℕ) (n : Option ℕ) (m : Bool)
      → KeptAt p (some i) n m
      → (u : Ticket) × (get_elem? p.admission.tickets i ≡ some u)
  ticket_there p i n m v =
      at_slot p.admission.tickets i (v.tickets.inside k i (put_self k (some i) others))

  count_there :
      (p : Places) (t : Option ℕ) (i : ℕ) (m : Bool)
      → KeptAt p t (some i) m
      → (u : Ticket) × (get_elem? p.count_places.tickets i ≡ some u)
  count_there p t i m v =
      at_slot p.count_places.tickets i (v.counts.inside k i (put_self k (some i) counting))

  pub count_leaves :
      (p : Places) (t : Option ℕ) (i : ℕ) (m : Bool)
      → KeptAt p t (some i) m
      → (q : Places) × (leave_count_at p (some i) ≡ some q) × KeptAt q t none m
  count_leaves p t i m v =
      let (u, g) = count_there p t i m v in
      let (s, z, _) = Reach-Kept c v.placed in
      let (r, e, _, _, _, _) = count_leave_total p.count_places i u s z g in
      (
        record p { count_places = r },
        rw e refl,
        record {
          admitted = v.admitted;
          placed = CountRuns.next v.placed (CountRuns.leaves i u g e);
          tickets = v.tickets;
          counts =
              Owned-leave k counting (λ _. true) i true true
                (count-leave-slot p.count_places r i u s g e) v.counts;
        },
      )

  pub ticket_leaves :
      (p : Places) (i : ℕ) (n : Option ℕ) (m : Bool)
      → KeptAt p (some i) n m
      → (q : Places) × (leave_ticket_at p (some i) ≡ some q)
        × (KeptAt q none n m × KeptAt q (some i) n false)
  ticket_leaves p i n m v =
      let (u, g) = ticket_there p i n m v in
      let (s, z, _) = Reach-IsSound c v.admitted in
      let (b, e, _, _, _, _) = leave_total p.admission i u s z g in
      let slots = leave-slot p.admission b i u s g e in
      let reached = GenerationRuns.next v.admitted (GenerationRuns.leaves i u g e) in
      (
        record p { admission = b },
        rw e refl,
        (
          record {
            admitted = reached;
            placed = v.placed;
            tickets = Owned-leave k others must i m m slots v.tickets;
            counts = v.counts;
          },
          record {
            admitted = reached;
            placed = v.placed;
            tickets = Owned-stop k others must i m slots v.tickets;
            counts = v.counts;
          },
        ),
      )

  pub count_enters :
      (p q : Places) (r : CountPlaces) (t : Option ℕ) (m : Bool) (cls : ServiceClass)
      (owner : Option ℕ) (i : ℕ)
      → Counts.enter p.count_places cls owner ≡ ok (r, i)
      → KeptAt p t none m
      → KeptAt (record p { count_places = r }) t (some i) m
  count_enters p q r t m cls owner i e v =
      let (free, slots) = count-enter-slot p.count_places r cls owner i e in
      record {
        admitted = v.admitted;
        placed = CountRuns.next v.placed (CountRuns.enters cls owner i e);
        tickets = v.tickets;
        counts = Owned-enter k counting (λ _. true) i true true free slots v.counts;
      }

  pub ticket_enters :
      (p : Places) (a : Admission) (n : Option ℕ) (m : Bool) (cls : ServiceClass) (owner : Option ℕ)
      (i : ℕ)
      → Generations.enter p.admission cls owner ≡ ok (a, i)
      → KeptAt p none n m
      → KeptAt (record p { admission = a }) (some i) n m
  ticket_enters p a n m cls owner i e v =
      let (s, z, _) = Reach-IsSound c v.admitted in
      let (free, slots) = enter-slot p.admission a cls owner i s z e in
      record {
        admitted = GenerationRuns.next v.admitted (GenerationRuns.enters cls owner i e);
        placed = v.placed;
        tickets = Owned-enter k others must i m m free slots v.tickets;
        counts = v.counts;
      }

  -- The future that the work awaits is cancelled.
  pub ticket_cancelled :
      (p : Places) (t n : Option ℕ) (m : Bool)
      → KeptAt p t n m
      → (i : Option ℕ) → KeptAt (record p { admission = cancel_ticket_at p.admission i }) t n m
  unfolding GenerationRuns.cancel
  ticket_cancelled p t n m v none = v
  ticket_cancelled p t n m v (some i) = elim (Option-cases (get_elem? p.admission.tickets i)) [
    | inl e ↦ rw (e, cancel_ticket_at) v
    | inr (u, e) ↦
        rw (e, cancel_ticket_at)
          (elim (Bool-cases (is_pending u.granted)) [
            | inl still ↦ rw still (record {
              admitted =
                  GenerationRuns.next v.admitted (GenerationRuns.cancels i u e (ground arith) refl);
              placed = v.placed;
              tickets =
                  Owned-same k others must t m m (λ h. h)
                    (λ j.
                      slot-set_same p.admission.tickets i j u (record u { granted = cancelled }) e
                        refl)
                    v.tickets;
              counts = v.counts;
            })
            | inr other ↦ rw other v
          ])
  ]

  pub count_cancelled :
      (p : Places) (t n : Option ℕ) (m : Bool)
      → KeptAt p t n m
      → (i : Option ℕ) → KeptAt (record p { count_places = cancel_count_at p.count_places i }) t n m
  unfolding CountRuns.cancel
  count_cancelled p t n m v none = v
  count_cancelled p t n m v (some i) = elim (Option-cases (get_elem? p.count_places.tickets i)) [
    | inl e ↦ rw (e, cancel_count_at) v
    | inr (u, e) ↦
        rw (e, cancel_count_at)
          (elim (Bool-cases (is_pending u.granted)) [
            | inl still ↦ rw still (record {
              admitted = v.admitted;
              placed = CountRuns.next v.placed (CountRuns.cancels i u e (ground arith) refl);
              tickets = v.tickets;
              counts =
                  Owned-same k counting (λ _. true) n true true (λ h. h)
                    (λ j.
                      slot-set_same p.count_places.tickets i j u (record u { granted = cancelled })
                        e refl)
                    v.counts;
            })
            | inr other ↦ rw other v
          ])
  ]
