-- ===== src/Inference/Schedule.antt =====
-- Runs of the works by a list of events, for tests.
use simple_serving.Prelude.{
  ℕ, suc, ◌≡◌, refl, inl, inr, true, false, Option, none, some, List, [], ◌∷◌, Bool, if◌then◌else◌,
  ◌>>=◌, arith, get_elem?, Option-cases, Bool-cases,
}
use simple_serving.Inference.{TextWork, Places}
use simple_serving.Inference.Steps.{
  Event, is_ready, resume, System, after_turn, Move, move, moves, Reach, next, Moves, one_more,
}

abbrev pub step_of : Event → ℕ → System → Option (Places × TextWork)
step_of e i s =
    get_elem? s.works i >>= λ w. if is_ready e s.places w then resume e s.places w else none

-- The events at the works, one after the other, while they are ready.
abbrev pub play : List (ℕ × Event) → System → System
play [] s = s
play (x ∷ xs) s = elim (step_of x.1 x.0 s) [
  | none ↦ s
  | some turn ↦ play xs (after_turn s x.0 turn)
]

abbrev pub plays : List (ℕ × Event) → System → Bool
plays [] s = true
plays (x ∷ xs) s = elim (step_of x.1 x.0 s) [
  | none ↦ false
  | some turn ↦ plays xs (after_turn s x.0 turn)
]

step_Move :
    (e : Event) (i : ℕ) (s : System) (turn : Places × TextWork)
    → step_of e i s ≡ some turn
    → Move s (after_turn s i turn)
step_Move e i s turn h = elim (Option-cases (get_elem? s.works i)) [
  | inl x ↦ absurd (ground arith)
  | inr (w, g) ↦ elim (Bool-cases (is_ready e s.places w)) [
    | inl ready ↦ move e i w turn g ready (ground arith) refl
    | inr unready ↦ absurd (ground arith)
  ]
]

pub plays_Reach :
    (xs : List (ℕ × Event)) (s t : System) → Reach s t → plays xs t ≡ true → Reach s (play xs t)
plays_Reach [] s t r h = r
plays_Reach (x ∷ xs) s t r h = elim (Option-cases (step_of x.1 x.0 t)) [
  | inl e ↦ absurd (ground arith)
  | inr (turn, e) ↦
      rw (e, play)
        (plays_Reach xs s (after_turn t x.0 turn) (next r (moves (step_Move x.1 x.0 t turn e)))
          (ground arith))
]

abbrev pub many : List (ℕ × Event) → ℕ → ℕ
many [] n = n
many (x ∷ xs) n = many xs (suc n)

pub plays-Moves :
    (xs : List (ℕ × Event)) (s t : System) (n : ℕ)
    → Moves s n t
    → plays xs t ≡ true
    → Moves s (many xs n) (play xs t)
plays-Moves [] s t n r h = r
plays-Moves (x ∷ xs) s t n r h = elim (Option-cases (step_of x.1 x.0 t)) [
  | inl e ↦ absurd (ground arith)
  | inr (turn, e) ↦
      rw (e, play)
        (plays-Moves xs s (after_turn t x.0 turn) (suc n) (one_more r (step_Move x.1 x.0 t turn e))
          (ground arith))
]
