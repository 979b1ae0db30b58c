-- ===== src/Inference/Fit.antt =====
-- What holds of a work between its turns, and of the places that it shares.
use simple_serving.Prelude.{
  ℕ, ◌≡◌, refl, sym, subst, Bool, true, false, not, Option, none, some, ◌<◌,
}
use simple_serving.Config.{Config}
use simple_serving.Work.{StopReason, is_running}
use simple_serving.Inference.{
  TextWork, Places, Phase, created, awaits_count_place, counts, awaits_place, generates, relays,
  ended, released, Outcome, cut_off, finish,
}
use simple_serving.Inference.Steps.{is_awaiting}
use simple_serving.Inference.Effects.{KeptAt}

-- The tickets that the work still has to give back, by its phase.
abbrev pub ticket_in : Phase → Option ℕ → Option ℕ
ticket_in (released o) t = none
ticket_in _ t = t

abbrev pub count_in : Phase → Option ℕ → Option ℕ
count_in awaits_count_place n = n
count_in counts n = n
count_in _ n = none

-- What the attributes are in each phase.
abbrev pub IsShaped : Phase → Option ℕ → Option ℕ → Type 0
IsShaped created t n = t ≡ none
IsShaped awaits_count_place t n = (t ≡ none) × ((i : ℕ) × (n ≡ some i))
IsShaped counts t n = (t ≡ none) × ((i : ℕ) × (n ≡ some i))
IsShaped awaits_place t n = (i : ℕ) × (t ≡ some i)
IsShaped _ t n = Unit {0}

abbrev pub is_cut : Outcome → Bool
is_cut cut_off = true
is_cut _ = false

abbrev pub cut_in : Phase → Bool
cut_in (ended o) = is_cut o
cut_in (released o) = is_cut o
cut_in _ = false

abbrev pub HasReason : TextWork → Type 0
HasReason w = (r : StopReason) × (w.work.stop_reason ≡ some r)

pub record IsFit (w : TextWork) : Type 0 where
  pub shape : IsShaped w.phase w.ticket w.count_place
  pub rests : is_awaiting w.phase ≡ false → is_running w.work.task ≡ false
  pub cancelled_for : w.work.cancelled ≡ true → HasReason w
  pub cut_for : cut_in w.phase ≡ true → HasReason w

-- How many turns the task has left at most.
abbrev pub rank : Phase → ℕ
rank created = 7
rank awaits_count_place = 6
rank counts = 5
rank awaits_place = 4
rank generates = 3
rank relays = 2
rank (ended o) = 1
rank (released o) = 0

pub finish-IsFit :
    (o : Outcome) (w : TextWork) → (is_cut o ≡ true → HasReason w) → IsFit w → IsFit (finish o w)
finish-IsFit o w h f = record {
  shape = tt;
  rests = λ _. refl;
  cancelled_for = f.cancelled_for;
  cut_for = h;
}

pub shape_at :
    {w : TextWork} (ph : Phase) → IsFit w → w.phase ≡ ph → IsShaped ph w.ticket w.count_place
shape_at {w} ph f e = subst (λ x. IsShaped x w.ticket w.count_place) e f.shape

module _ (c : Config) (k : ℕ) (others counting : ℕ → Option ℕ) (must : ℕ → Bool) where
  abbrev pub KeptFor : Places → TextWork → Type 0
  KeptFor p w =
      KeptAt c k others counting must p (ticket_in w.phase w.ticket)
        (count_in w.phase w.count_place) (not w.work.cancelled)

  abbrev pub Turned : Option (Places × TextWork) → ℕ → Type 0
  Turned r n =
      (turn : Places × TextWork) × (r ≡ some turn)
      × KeptFor turn.0 turn.1
      × IsFit turn.1
      × (rank turn.1.phase < n)

  pub kept_at :
      (p : Places) (w : TextWork) (ph : Phase)
      → KeptFor p w
      → w.phase ≡ ph
      → KeptAt c k others counting must p
          (ticket_in ph w.ticket)
          (count_in ph w.count_place)
          (not w.work.cancelled)
  kept_at p w ph v e =
      subst
        (λ x.
          KeptAt c k others counting must p (ticket_in x w.ticket) (count_in x w.count_place)
            (not w.work.cancelled))
        e v

  -- The task ends while it has no count place.
  pub finishes :
      (o : Outcome) (p : Places) (w : TextWork) (n : ℕ)
      → KeptAt c k others counting must p w.ticket none (not w.work.cancelled)
      → IsFit w
      → (is_cut o ≡ true → HasReason w)
      → 1 < n
      → Turned (some (p, finish o w)) n
  finishes o p w n v f h less = ((p, finish o w), refl, v, finish-IsFit o w h f, less)

  pub Turned-at :
      (r : Option (Places × TextWork)) (w : TextWork) (ph : Phase)
      → w.phase ≡ ph
      → Turned r (rank ph)
      → Turned r (rank w.phase)
  Turned-at r w ph e t = subst (λ x. Turned r (rank x)) (sym e) t
