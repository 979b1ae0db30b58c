-- ===== src/Inference/Idle.antt =====
-- No place is lost: each is some work's until its cleanup, and after all cleanups none is taken.
use simple_serving.Prelude.{
  ℕ, suc, ◌≡◌, ◌≢◌, refl, ◌∙◌, arith, inl, inr, Bool, true, false, some, List, [], ◌∷◌, ◌<◌,
  get_elem?, count, Option-cases, Bool-cases,
}
use simple_serving.Config.{ServiceClass, Config}
use simple_serving.Line.{Ticket, TicketState, waiting, active, left, counts}
use simple_serving.Line.Laws.{counts-Holds, waits_in}
use simple_serving.Admission.Invariant.{runs_in, runs_for, waits_for}
use simple_serving.Admission.Runs.{Reach-IsSound}
use simple_serving.CountPlaces.Invariant.{is_here, here_for}
use simple_serving.CountPlaces.Runs.{Reach-Kept}
use simple_serving.Inference.{TextWork, Phase, released}
use simple_serving.Inference.Steps.{System, start, Reach}
use simple_serving.Inference.Fit.{ticket_in, count_in}
use simple_serving.Inference.Runs.{entry, ticket_of, IsKept, Reach-IsKept}

count_zero {ℓ} :
    {A : Type ℓ} (p : A → Bool) (xs : List A)
    → ((i : ℕ) (x : A) → get_elem? xs i ≡ some x → p x ≡ false)
    → count p xs ≡ 0
count_zero p [] h = refl
count_zero p (x ∷ xs) h = ground (arith, h 0 x refl, count_zero p xs (λ i y g. h (suc i) y g))

pub count_positive {ℓ} :
    {A : Type ℓ} (p : A → Bool) (xs : List A)
    → 0 < count p xs
    → (i : ℕ) × (x : A) × (get_elem? xs i ≡ some x) × (p x ≡ true)
count_positive p [] h = absurd (ground arith)
count_positive p (x ∷ xs) h = elim (Bool-cases (p x)) [
  | inl e ↦ (0, x, refl, e)
  | inr e ↦ let (i, y, g, a) = count_positive p xs (ground arith) in (suc i, y, g, a)
]

-- The work that has the ticket at `i` of the admission, with its place in the list.
abbrev pub Holder : System → ℕ → Type 0
Holder s i =
    (k : ℕ) × (w : TextWork) × (get_elem? s.works k ≡ some w)
    × (ticket_in w.phase w.ticket ≡ some i)

abbrev pub CountHolder : System → ℕ → Type 0
CountHolder s i =
    (k : ℕ) × (w : TextWork) × (get_elem? s.works k ≡ some w)
    × (count_in w.phase w.count_place ≡ some i)

pub holder :
    (c : Config) {s : System} (i : ℕ) (t : Ticket)
    → IsKept c s
    → get_elem? s.places.admission.tickets i ≡ some t
    → is_here t.state ≡ true
    → Holder s i
holder c {s} i t v g h =
    let (k, e) = v.tickets.owner i (ground arith) in
    elim (Option-cases (get_elem? s.works k)) [
      | inl x ↦ absurd (ground arith)
      | inr (w, x) ↦ (k, w, x, ground arith)
    ]

pub count_holder :
    (c : Config) {s : System} (i : ℕ) (t : Ticket)
    → IsKept c s
    → get_elem? s.places.count_places.tickets i ≡ some t
    → is_here t.state ≡ true
    → CountHolder s i
count_holder c {s} i t v g h =
    let (k, e) = v.counts.owner i (ground arith) in
    elim (Option-cases (get_elem? s.works k)) [
      | inl x ↦ absurd (ground arith)
      | inr (w, x) ↦ (k, w, x, ground arith)
    ]

abbrev pub is_released : Phase → Bool
is_released (released o) = true
is_released _ = false

abbrev pub AllReleased : System → Type 0
AllReleased s = (k : ℕ) (w : TextWork) → get_elem? s.works k ≡ some w → is_released w.phase ≡ true

abbrev pub NoPlaceTaken : System → Type 0
NoPlaceTaken s =
    ((cls : ServiceClass)
      → (s.places.admission.active cls ≡ 0)
        × (counts s.places.admission.line cls ≡ 0)
        × (s.places.count_places.running cls ≡ 0)
        × (counts s.places.count_places.line cls ≡ 0))
    × ((key : ℕ)
        → (s.places.admission.owner_active key ≡ 0)
          × (s.places.admission.owner_waiting key ≡ 0)
          × (s.places.count_places.by_owner key ≡ 0))

module _ (c : Config) {s : System} (v : IsKept c s) (done : AllReleased s) where
  none_here :
      (i : ℕ) (t : Ticket)
      → get_elem? s.places.admission.tickets i ≡ some t
      → is_here t.state ≡ false
  none_here i t g = elim (Bool-cases (is_here t.state)) [
    | inl h ↦ let (k, w, e, x) = holder c i t v g h in absurd (ground (arith, done k w e))
    | inr h ↦ h
  ]

  no_count_here :
      (i : ℕ) (t : Ticket)
      → get_elem? s.places.count_places.tickets i ≡ some t
      → is_here t.state ≡ false
  no_count_here i t g = elim (Bool-cases (is_here t.state)) [
    | inl h ↦ let (k, w, e, x) = count_holder c i t v g h in absurd (ground (arith, done k w e))
    | inr h ↦ h
  ]

  pub released-NoPlaceTaken : NoPlaceTaken s
  released-NoPlaceTaken =
      let (sound, _, _) = Reach-IsSound c v.admitted in
      let (count_sound, _, _) = Reach-Kept c v.placed in
      let ts = s.places.admission.tickets in
      let ns = s.places.count_places.tickets in
      (
        λ cls. (
          sound.counted.active cls
              ∙ count_zero (runs_in cls) ts (λ i t g. ground (arith, none_here i t g)),
          counts-Holds s.places.admission.line ts cls sound.counted.line
              ∙ count_zero (waits_in cls) ts (λ i t g. ground (arith, none_here i t g)),
          count_sound.counted.running cls
              ∙ count_zero (runs_in cls) ns (λ i t g. ground (arith, no_count_here i t g)),
          counts-Holds s.places.count_places.line ns cls count_sound.counted.line
              ∙ count_zero (waits_in cls) ns (λ i t g. ground (arith, no_count_here i t g)),
        ),
        λ key. (
          sound.counted.owner_active key
              ∙ count_zero (runs_for key) ts (λ i t g. ground (arith, none_here i t g)),
          sound.counted.owner_waiting key
              ∙ count_zero (waits_for key) ts (λ i t g. ground (arith, none_here i t g)),
          count_sound.counted.by_owner key
              ∙ count_zero (here_for key) ns (λ i t g. ground (arith, no_count_here i t g)),
        ),
      )

here_of : (x : TicketState) → x ≢ left → is_here x ≡ true
here_of waiting n = refl
here_of active n = refl
here_of left n = absurd (n refl)

-- No place is lost. In every reachable state of all the works, a ticket of a generation that waits
-- or is active is held by one work alone, which has not been cleaned up.
pub held_by_one :
    (c : Config) (s : System) (i : ℕ) (t : Ticket)
    → Reach (start c) s
    → get_elem? s.places.admission.tickets i ≡ some t
    → t.state ≢ left
    → (held : Holder s i) × ((other : Holder s i) → other.0 ≡ held.0)
held_by_one c s i t r g n =
    let v = Reach-IsKept c r in
    let held = holder c i t v g (here_of t.state n) in
    (held, λ other. v.tickets.unique other.0 held.0 i (found other) (found held))
  where
    found : (h : Holder s i) → entry ticket_of s.works h.0 ≡ some i
    found (k, w, e, x) = ground arith
