-- ===== src/Inference/Ends.antt =====
-- All the works end: the turns that are left are counted, and while a work has not been cleaned up
-- there is a next one.
use simple_serving.Prelude.{
  ℕ, zero, suc, ◌+◌, ◌*◌, ◌≡◌, refl, sym, subst, arith, ◌⊎◌, inl, inr, true, false, Option, some,
  List, [], ◌∷◌, ◌≤◌, ◌<◌, get_elem?, set, length, Bool-cases,
}
use simple_serving.Json.{Json}
use simple_serving.Config.{Config}
use simple_serving.ConfigValues.{Library}
use simple_serving.ConfigFile.{load}
use simple_serving.ConfigFile.Valid.{load-IsValid}
use simple_serving.TextLane.{Service}
use simple_serving.Inference.{
  TextWork, Places, Phase, created, awaits_count_place, counts, awaits_place, generates, relays,
  ended, released,
}
use simple_serving.Inference.Steps.{
  System, start, after_turn, Move, move, Moves, none_left, one_more, Reach,
}
use simple_serving.Inference.Fit.{rank}
use simple_serving.Inference.Runs.{IsKept, move_total, Move-IsKept, Reach-IsKept}
use simple_serving.Inference.Idle.{is_released, AllReleased, NoPlaceTaken, released-NoPlaceTaken}
use simple_serving.Inference.Busy.{HasPlaces}
use simple_serving.Inference.Progress.{unreleased-Resumable}

turns_left : List TextWork → ℕ
turns_left [] = 0
turns_left (w ∷ ws) = rank w.phase + turns_left ws

rank_at_most : (ph : Phase) → rank ph ≤ 7
rank_at_most created = omega arith
rank_at_most awaits_count_place = omega arith
rank_at_most counts = omega arith
rank_at_most awaits_place = omega arith
rank_at_most generates = omega arith
rank_at_most relays = omega arith
rank_at_most (ended o) = omega arith
rank_at_most (released o) = omega arith

turns_at_most : (ws : List TextWork) → turns_left ws ≤ 7 * length ws
unfolding turns_left
turns_at_most [] = omega arith
turns_at_most (w ∷ ws) = omega (arith, rank_at_most w.phase, turns_at_most ws)

turns_left-set :
    (ws : List TextWork) (i : ℕ) (w x : TextWork)
    → get_elem? ws i ≡ some w
    → turns_left (set ws i x) + rank w.phase ≡ turns_left ws + rank x.phase
unfolding turns_left
turns_left-set [] i w x h = absurd (ground arith)
turns_left-set (y ∷ ws) zero w x h = ground arith
turns_left-set (y ∷ ws) (suc i) w x h = omega (arith, turns_left-set ws i w x h)

Move-fewer :
    (c : Config) {s t : System} → IsKept c s → Move s t → turns_left t.works < turns_left s.works
Move-fewer c {s} {t} v (move e i w turn g h x same) =
    let (turn', y, _, less) = move_total c s e i w v g h in
    let same_turn : turn ≡ turn' = ground arith in
    subst (λ u. turns_left u.works < turns_left s.works) (sym same)
      (omega (arith, turns_left-set s.works i w turn.1 g, fewer turn turn' same_turn less))
  where
    fewer :
        (a b : Places × TextWork)
        → a ≡ b
        → rank b.1.phase < rank w.phase
        → rank a.1.phase < rank w.phase
    fewer a b e l = subst (λ z. rank z.1.phase < rank w.phase) (sym e) l

Moves-bound :
    (c : Config) {s t : System} {n : ℕ}
    → IsKept c s
    → Moves s n t
    → IsKept c t × (n + turns_left t.works ≤ turns_left s.works)
Moves-bound c v none_left = (v, omega arith)
Moves-bound c v (one_more ms m) =
    let (z, h) = Moves-bound c v ms in (Move-IsKept c z m, omega (arith, Move-fewer c z m))

all_or_one :
    (ws : List TextWork)
    → ((k : ℕ) (w : TextWork) → get_elem? ws k ≡ some w → is_released w.phase ≡ true)
      ⊎ ((k : ℕ) × (w : TextWork) × (get_elem? ws k ≡ some w) × (is_released w.phase ≡ false))
all_or_one [] = inl (λ k w e. absurd (ground arith))
all_or_one (x ∷ ws) = elim (Bool-cases (is_released x.phase)) [
  | inr open_yet ↦ inr (0, x, refl, open_yet)
  | inl done ↦ elim (all_or_one ws) [
    | inr (k, w, e, n) ↦ inr (suc k, w, e, n)
    | inl all ↦ inl (λ k w e. later k w e done all)
  ]
]
  where
    later :
        (k : ℕ) (w : TextWork)
        → get_elem? (x ∷ ws) k ≡ some w
        → is_released x.phase ≡ true
        → ((k : ℕ) (w : TextWork) → get_elem? ws k ≡ some w → is_released w.phase ≡ true)
        → is_released w.phase ≡ true
    later zero w e done all = ground arith
    later (suc k) w e done all = all k w e

loaded-HasPlaces :
    (lib : Library) (file : Option Json) (c : Config) → load lib file ≡ some c → HasPlaces c
loaded-HasPlaces lib file c h =
    let valid = load-IsValid lib file c h in
    let (key_places, shared_places, count_places, _) = valid.places in
    record {
      classes = λ cls. (valid.limits_sound cls).active;
      keys = key_places;
      shared = shared_places;
      counts = count_places;
    }

abbrev pub EndsOrMoves : System → Type 0
EndsOrMoves t = (AllReleased t × NoPlaceTaken t) ⊎ ((u : System) × Move t u)

ends_or_moves : (c : Config) (sv : Service) {t : System} → HasPlaces c → IsKept c t → EndsOrMoves t
ends_or_moves c sv {t} h v = elim (all_or_one t.works) [
  | inl all ↦ inl (all, released-NoPlaceTaken c v all)
  | inr (k, w, e, n) ↦
      let (l, x, g, _, ready) = unreleased-Resumable c sv v h k w e n in
      let (turn, z, _, _) = move_total c t _ l x v g ready in
      inr (after_turn t l turn, move _ l x turn g ready z refl)
]

-- All work ends. Under a configuration that `load` gives, from every reachable state of all the
-- works, while no request arrives and none is stopped: however the tasks are resumed, whatever the
-- engine answers, there are at most seven turns for each work, and as long as a work has not been
-- cleaned up there is a next turn; after the last one no place of any kind is taken.
pub works_end :
    (lib : Library) (file : Option Json) (c : Config) (sv : Service) (s t : System) (n : ℕ)
    → load lib file ≡ some c
    → Reach (start c) s
    → Moves s n t
    → (n ≤ 7 * length s.works) × EndsOrMoves t
works_end lib file c sv s t n l r ms =
    let (v, h) = Moves-bound c (Reach-IsKept c r) ms in
    (omega (arith, turns_at_most s.works), ends_or_moves c sv (loaded-HasPlaces lib file c l) v)
