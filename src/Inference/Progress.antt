-- ===== src/Inference/Progress.antt =====
-- The works never wait for one another in a ring: while one has not been cleaned up, some task can be
-- resumed, and each turn leaves its work fewer turns.
use simple_serving.Prelude.{
  ℕ, ◌≡◌, refl, arith, inl, inr, true, false, some, get_elem?, Option-cases, Bool-cases,
}
use simple_serving.Config.{Config}
use simple_serving.Line.{Ticket, waiting, is_active}
use simple_serving.TextLane.{Service}
use simple_serving.Admission.{Admission, has_room, owner_full, shared_active}
use simple_serving.Admission.Runs.{Reach-IsSound}
use simple_serving.CountPlaces.{CountPlaces, total}
use simple_serving.CountPlaces.Runs.{Reach-Kept}
use simple_serving.Admission as Generations
use simple_serving.CountPlaces as Counts
use simple_serving.Inference.{
  TextWork, Phase, created, awaits_count_place, counts, awaits_place, generates, relays, ended,
  released, active_at,
}
use simple_serving.Inference.Steps.{is_granted, is_ready, System}
use simple_serving.Inference.Heap.{slot}
use simple_serving.Inference.Fit.{IsFit, shape_at, ticket_in, count_in}
use simple_serving.Inference.Runs.{IsKept}
use simple_serving.Inference.Idle.{holder, count_holder, is_released}
use simple_serving.Inference.Busy.{
  HasPlaces, awaited, goes_on, awaited-ready, BusyTicket, no_room_busy, count_busy,
}

-- A work whose task, or whose cleanup, can be resumed.
abbrev pub Resumable : Service → System → Type 0
Resumable sv s =
    (k : ℕ) × (w : TextWork) × (get_elem? s.works k ≡ some w)
    × (is_released w.phase ≡ false)
    × (is_ready (awaited sv w.phase w.work.cancelled) s.places w ≡ true)

module _ (c : Config) (sv : Service) {s : System} (v : IsKept c s) where
  resumable :
      (k : ℕ) (w : TextWork)
      → get_elem? s.works k ≡ some w
      → goes_on w.phase w.work.cancelled (is_granted w.phase s.places w) ≡ true
      → Resumable sv s
  resumable k w g h = (k, w, g, ground arith, awaited-ready sv s.places w h)

  -- A work that has an active ticket does not wait.
  holder-Resumable :
      (j : ℕ) (u : Ticket)
      → get_elem? s.places.admission.tickets j ≡ some u
      → is_active u.state ≡ true
      → Resumable sv s
  holder-Resumable j u g a =
      let (k, w, x, e) = holder c j u v g (ground arith) in
      resumable k w x (by_phase w w.phase refl e (v.fit k w x))
    where
      by_phase :
          (w : TextWork) (ph : Phase)
          → w.phase ≡ ph
          → ticket_in ph w.ticket ≡ some j
          → IsFit w
          → goes_on ph w.work.cancelled (is_granted ph s.places w) ≡ true
      by_phase w created e t f = absurd (ground (arith, shape_at created f e))
      by_phase w awaits_count_place e t f =
          let (empty, _) = shape_at awaits_count_place f e in absurd (ground arith)
      by_phase w counts e t f = ground arith
      by_phase w awaits_place e t f = ground arith
      by_phase w generates e t f = ground arith
      by_phase w relays e t f = ground arith
      by_phase w (ended o) e t f = refl
      by_phase w (released o) e t f = absurd (ground arith)

  count_holder-Resumable :
      (j : ℕ) (u : Ticket)
      → get_elem? s.places.count_places.tickets j ≡ some u
      → is_active u.state ≡ true
      → Resumable sv s
  count_holder-Resumable j u g a =
      let (k, w, x, e) = count_holder c j u v g (ground arith) in
      resumable k w x (by_phase w w.phase e)
    where
      by_phase :
          (w : TextWork) (ph : Phase)
          → count_in ph w.count_place ≡ some j
          → goes_on ph w.work.cancelled (is_granted ph s.places w) ≡ true
      by_phase w awaits_count_place e = ground arith
      by_phase w counts e = ground arith
      by_phase w created e = absurd (ground arith)
      by_phase w awaits_place e = absurd (ground arith)
      by_phase w generates e = absurd (ground arith)
      by_phase w relays e = absurd (ground arith)
      by_phase w (ended o) e = absurd (ground arith)
      by_phase w (released o) e = absurd (ground arith)

  module _ (h : HasPlaces c) where
    -- A generation that waits for a place.
    place-Resumable :
        (k i : ℕ) (w : TextWork)
        → get_elem? s.works k ≡ some w
        → w.phase ≡ awaits_place
        → w.work.cancelled ≡ false
        → w.ticket ≡ some i
        → active_at s.places.admission.tickets (some i) ≡ false
        → Resumable sv s
    unfolding BusyTicket Generations.init
    place-Resumable k i w g e n at idle =
        let (sound, settled, same) = Reach-IsSound c v.admitted in
        let there : slot s.places.admission.tickets i ≡ some true =
          v.tickets.live k i (ground arith) (ground arith) in
        elim (Option-cases (get_elem? s.places.admission.tickets i)) [
          | inl x ↦ absurd (ground arith)
          | inr (t, x) ↦
              let waits : t.state ≡ waiting = ground arith in
              let (j, u, y, a) =
                no_room_busy s.places.admission t sound
                  (λ cls. ground (arith, same.limits, h.classes cls))
                  (ground (arith, same.per_key_active, h.keys))
                  (ground (arith, same.shared, h.shared)) (settled i t x waits) in
              holder-Resumable j u y a
        ]

    -- A count that waits for its place.
    count-Resumable :
        (k i : ℕ) (w : TextWork)
        → get_elem? s.works k ≡ some w
        → w.phase ≡ awaits_count_place
        → w.count_place ≡ some i
        → active_at s.places.count_places.tickets (some i) ≡ false
        → Resumable sv s
    unfolding Counts.init
    count-Resumable k i w g e at idle =
        let (sound, settled, same) = Reach-Kept c v.placed in
        let there : slot s.places.count_places.tickets i ≡ some true =
          v.counts.live k i refl (ground arith) in
        elim (Option-cases (get_elem? s.places.count_places.tickets i)) [
          | inl x ↦ absurd (ground arith)
          | inr (t, x) ↦
              let waits : t.state ≡ waiting = ground arith in
              let (j, u, y, a) =
                count_busy s.places.count_places sound
                  (ground (arith, same.places, h.counts, settled i t x waits)) in
              count_holder-Resumable j u y a
        ]

    pub unreleased-Resumable :
        (k : ℕ) (w : TextWork)
        → get_elem? s.works k ≡ some w
        → is_released w.phase ≡ false
        → Resumable sv s
    unreleased-Resumable k w g n =
        elim (Bool-cases (goes_on w.phase w.work.cancelled (is_granted w.phase s.places w))) [
          | inl go ↦ resumable k w g go
          | inr stays ↦ by_phase w.phase refl n stays
        ]
      where
        by_phase :
            (ph : Phase)
            → w.phase ≡ ph
            → is_released ph ≡ false
            → goes_on ph w.work.cancelled (is_granted ph s.places w) ≡ false
            → Resumable sv s
        by_phase awaits_place e a b =
            let (i, at) = shape_at awaits_place (v.fit k w g) e in
            place-Resumable k i w g e (ground arith) at (ground arith)
        by_phase awaits_count_place e a b =
            let (_, (i, at)) = shape_at awaits_count_place (v.fit k w g) e in
            count-Resumable k i w g e at (ground arith)
        by_phase created e a b = absurd (ground arith)
        by_phase counts e a b = absurd (ground arith)
        by_phase generates e a b = absurd (ground arith)
        by_phase relays e a b = absurd (ground arith)
        by_phase (ended o) e a b = absurd (ground arith)
        by_phase (released o) e a b = absurd (ground arith)
