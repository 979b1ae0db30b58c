-- ===== src/Inference/Runs.antt =====
-- What holds in every reachable state of all the works, and that no turn of theirs raises an
-- unexpected exception.
use simple_serving.Prelude.{
  ℕ, zero, suc, ◌≡◌, refl, sym, ◌∙◌, subst, arith, inl, inr, Bool, true, not, Option, none, some,
  List, [], ◌∷◌, ◌++◌, get_elem?, set, get_elem?-set_inv, get_elem?-append, ◌<◌,
}
use simple_serving.Config.{Config}
use simple_serving.Policy.{Caller}
use simple_serving.Chat.{ChatRequest}
use simple_serving.Work.{Work, StopReason}
use simple_serving.TextLane.{Kind}
use simple_serving.Admission as Generations
use simple_serving.CountPlaces as Counts
use simple_serving.Admission.Runs as GenerationRuns
use simple_serving.CountPlaces.Runs as CountRuns
use simple_serving.Inference.{TextWork, text_work, Places}
use simple_serving.Inference.Stop.{stop_work}
use simple_serving.Inference.Steps.{
  Event, is_ready, resume, System, start, after_turn, Move, move, Step, arrives, stops, moves,
  Reach, here, next,
}
use simple_serving.Inference.Heap.{slot, put}
use simple_serving.Inference.Owned.{Owned, Owned-ext}
use simple_serving.Inference.Fit.{IsFit, ticket_in, count_in, KeptFor, rank}
use simple_serving.Inference.Turns.{resume_total}
use simple_serving.Inference.Stops.{stop_total}

module _ {ℓ κ} {A : Type ℓ} {B : Type κ} (f : Option A → B) where
  abbrev pub entry : List A → ℕ → B
  entry xs j = f (get_elem? xs j)

  entry-put :
      (xs : List A) (i j : ℕ) (x : A)
      → get_elem? xs i ≡ some x
      → put i (f (some x)) (entry xs) j ≡ entry xs j
  entry-put [] i j x h = absurd (ground arith)
  entry-put (y ∷ xs) zero zero x h = ground arith
  entry-put (y ∷ xs) zero (suc j) x h = ground arith
  entry-put (y ∷ xs) (suc i) zero x h = ground arith
  entry-put (y ∷ xs) (suc i) (suc j) x h = ground (arith, entry-put xs i j x h)

  entry-set :
      (xs : List A) (i j : ℕ) (x y : A)
      → get_elem? xs i ≡ some x
      → entry (set xs i y) j ≡ put i (f (some y)) (entry xs) j
  entry-set [] i j x y h = absurd (ground arith)
  entry-set (z ∷ xs) zero zero x y h = ground arith
  entry-set (z ∷ xs) zero (suc j) x y h = ground arith
  entry-set (z ∷ xs) (suc i) zero x y h = ground arith
  entry-set (z ∷ xs) (suc i) (suc j) x y h = ground (arith, entry-set xs i j x y h)

  entry-append :
      (xs : List A) (x : A) (j : ℕ) → f (some x) ≡ f none → entry (xs ++ x ∷ []) j ≡ entry xs j
  entry-append [] x zero h = h
  entry-append [] x (suc j) h = refl
  entry-append (y ∷ xs) x zero h = refl
  entry-append (y ∷ xs) x (suc j) h = entry-append xs x j h

-- The tickets that each work has to give back, and whether it must have one that has not left.
abbrev pub ticket_of : Option TextWork → Option ℕ
ticket_of none = none
ticket_of (some w) = ticket_in w.phase w.ticket

abbrev pub count_of : Option TextWork → Option ℕ
count_of none = none
count_of (some w) = count_in w.phase w.count_place

abbrev pub must_of : Option TextWork → Bool
must_of none = true
must_of (some w) = not w.work.cancelled

pub record IsKept (c : Config) (s : System) : Type 0 where
  pub admitted : GenerationRuns.Reach (Generations.init c) s.places.admission
  pub placed : CountRuns.Reach (Counts.init c) s.places.count_places
  pub tickets :
      Owned (entry ticket_of s.works) (entry must_of s.works) (slot s.places.admission.tickets)
  pub counts : Owned (entry count_of s.works) (λ _. true) (slot s.places.count_places.tickets)
  pub fit : (i : ℕ) (w : TextWork) → get_elem? s.works i ≡ some w → IsFit w

module _ (c : Config) where
  -- The state as the work at `i` sees it.
  abbrev pub KeptBy : System → ℕ → Places → TextWork → Type 0
  KeptBy s i =
      KeptFor c i (entry ticket_of s.works) (entry count_of s.works) (entry must_of s.works)

  pub to_work :
      (s : System) (i : ℕ) (w : TextWork)
      → get_elem? s.works i ≡ some w
      → IsKept c s
      → KeptBy s i s.places w
  to_work s i w g v = record {
    admitted = v.admitted;
    placed = v.placed;
    tickets =
        Owned-ext (λ j. entry-put ticket_of s.works i j w g)
          (λ j h. sym (entry-put must_of s.works i j w g) ∙ h) (λ j. refl) v.tickets;
    counts = Owned-ext (λ j. entry-put count_of s.works i j w g) (λ j h. refl) (λ j. refl) v.counts;
  }

  pub from_work :
      (s : System) (i : ℕ) (w : TextWork) (turn : Places × TextWork)
      → get_elem? s.works i ≡ some w
      → IsKept c s
      → KeptBy s i turn.0 turn.1
      → IsFit turn.1
      → IsKept c (after_turn s i turn)
  from_work s i w turn g v z f = record {
    admitted = z.admitted;
    placed = z.placed;
    tickets =
        Owned-ext (λ j. entry-set ticket_of s.works i j w turn.1 g)
          (λ j h. sym (entry-set must_of s.works i j w turn.1 g) ∙ h) (λ j. refl) z.tickets;
    counts =
        Owned-ext (λ j. entry-set count_of s.works i j w turn.1 g) (λ j h. ground arith) (λ j. refl)
          z.counts;
    fit = λ j x h. elim (get_elem?-set_inv s.works i j turn.1 x h) [
      | inl old ↦ v.fit j x old
      | inr (_, e) ↦ subst IsFit (sym e) f
    ];
  }

  start-IsKept : IsKept c (start c)
  unfolding Generations.init Counts.init
  start-IsKept = record {
    admitted = GenerationRuns.here;
    placed = CountRuns.here;
    tickets = record {
      inside = λ k i e. absurd (ground arith);
      unique = λ k l i e f. absurd (ground arith);
      owner = λ i e. absurd (ground arith);
      live = λ k i a e. absurd (ground arith);
    };
    counts = record {
      inside = λ k i e. absurd (ground arith);
      unique = λ k l i e f. absurd (ground arith);
      owner = λ i e. absurd (ground arith);
      live = λ k i a e. absurd (ground arith);
    };
    fit = λ i w e. absurd (ground arith);
  }

  arrives-IsKept :
      (s : System) (kind : Kind) (caller : Caller) (request : ChatRequest) (work : Work)
      → IsKept c s
      → IsKept c (record s { works = s.works ++ text_work kind caller request work ∷ [] })
  unfolding text_work
  arrives-IsKept s kind caller request work v =
      let w = text_work kind caller request work in
      record {
        admitted = v.admitted;
        placed = v.placed;
        tickets =
            Owned-ext (λ j. entry-append ticket_of s.works w j refl)
              (λ j h. sym (entry-append must_of s.works w j refl) ∙ h) (λ j. refl) v.tickets;
        counts =
            Owned-ext (λ j. entry-append count_of s.works w j refl) (λ j h. refl) (λ j. refl)
              v.counts;
        fit = λ j x h. elim (get_elem?-append s.works w j x h) [
          | inl old ↦ v.fit j x old
          | inr (_, e) ↦ subst IsFit (sym e) (record {
            shape = refl;
            rests = λ a. absurd (ground arith);
            cancelled_for = λ a. absurd (ground arith);
            cut_for = λ a. absurd (ground arith);
          })
        ];
      }

  -- A ready event at a work.
  pub move_total :
      (s : System) (e : Event) (i : ℕ) (w : TextWork)
      → IsKept c s
      → get_elem? s.works i ≡ some w
      → is_ready e s.places w ≡ true
      → (turn : Places × TextWork) × (resume e s.places w ≡ some turn)
        × IsKept c (after_turn s i turn)
        × (rank turn.1.phase < rank w.phase)
  move_total s e i w v g h =
      let (turn, x, z, f, less) =
        resume_total c i _ _ _ e s.places w (to_work s i w g v) (v.fit i w g) h in
      (turn, x, from_work s i w turn g v z f, less)

  pub stops_total :
      (s : System) (reason : StopReason) (i : ℕ) (w : TextWork)
      → IsKept c s
      → get_elem? s.works i ≡ some w
      → (turn : Places × TextWork) × (stop_work reason s.places w ≡ some turn)
        × IsKept c (after_turn s i turn)
  stops_total s reason i w v g =
      let (turn, x, z, f) =
        stop_total c i _ _ _ reason s.places w (to_work s i w g v) (v.fit i w g) in
      (turn, x, from_work s i w turn g v z f)

  pub Move-IsKept : {s t : System} → IsKept c s → Move s t → IsKept c t
  Move-IsKept {s} {t} v (move e i w turn g h x same) =
      let (turn', x', z, _) = move_total s e i w v g h in subst (IsKept c) (ground arith) z

  Step-IsKept : {s t : System} → IsKept c s → Step s t → IsKept c t
  Step-IsKept {s} {t} v (arrives kind caller request work e) =
      subst (IsKept c) (sym e) (arrives-IsKept s kind caller request work v)
  Step-IsKept {s} {t} v (stops reason i w turn g x same) =
      let (turn', x', z) = stops_total s reason i w v g in subst (IsKept c) (ground arith) z
  Step-IsKept v (moves m) = Move-IsKept v m

  pub Reach-IsKept : {s : System} → Reach (start c) s → IsKept c s
  Reach-IsKept here = start-IsKept
  Reach-IsKept (next r s) = Step-IsKept (Reach-IsKept r) s
