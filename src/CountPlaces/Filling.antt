-- ===== src/CountPlaces/Filling.antt =====
-- The loop of `CountPlaces.leave` ends within its fuel and fills the free places.
use simple_serving.Prelude.{
  ℕ, zero, suc, ◌<◌, true, Option, none, some, ◌≡◌, ◌≢◌, refl, ◌∙◌, arith, ◌⊎◌, inl, inr, get_elem?,
  get_elem?-set_cases, get_elem?-set_self, sym, ltb, Option-cases, Bool-cases,
}
use simple_serving.Line.{Ticket, TicketState, waiting, active, left, grant, depart, take_out, size}
use simple_serving.Line.Order.{find-in_order, find-in_order-none}
use simple_serving.CountPlaces.{
  CountPlaces, total, first_in_line, next_count, admit, run, fill_loop, fill, give_up,
  fill_unless_left, leave,
}
use simple_serving.CountPlaces.Steps.{admit-IsSound, give_up-IsSound}
use simple_serving.CountPlaces.Invariant.{
  IsCounted, IsSound, IsSettled, SameLimits, SameLimits-refl, SameLimits-trans,
}

pub next_count-some :
    (p : CountPlaces) (i : ℕ)
    → IsCounted p
    → next_count p ≡ some i
    → (t : Ticket) × (get_elem? p.tickets i ≡ some t)
      × (t.state ≡ waiting)
      × (ltb (total p.running) p.places ≡ true)
unfolding next_count first_in_line
next_count-some p i v e =
    let (t, g, w, _) = find-in_order (λ _. true) p.line p.tickets i v.line (ground arith) in
    (t, g, w, ground arith)

pub next_count-none : (p : CountPlaces) → IsCounted p → next_count p ≡ none → IsSettled p
unfolding next_count first_in_line
next_count-none p v e i t g w = elim (Bool-cases (ltb (total p.running) p.places)) [
  | inl free ↦ absurd (
      ground (arith, find-in_order-none (λ _. true) p.line p.tickets i t v.line (ground arith) g w))
  | inr full ↦ ground arith
]

abbrev pub Filled : Option CountPlaces → CountPlaces → Type 0
Filled r p = (q : CountPlaces) × (r ≡ some q) × IsSound q × IsSettled q × SameLimits p q

pub fill_loop_stop :
    (fuel : ℕ) (p : CountPlaces) → next_count p ≡ none → fill_loop (suc fuel) p ≡ some p
unfolding fill_loop
fill_loop_stop fuel p e = rw (e, fill_loop) refl

pub fill_loop_step :
    (fuel : ℕ) (p q : CountPlaces) (i : ℕ)
    → next_count p ≡ some i
    → admit p i ≡ some q
    → fill_loop (suc fuel) p ≡ fill_loop fuel q
unfolding fill_loop
fill_loop_step fuel p q i e x = rw (e, fill_loop) (rw x refl)

fill_loop_lem :
    (fuel : ℕ) (p : CountPlaces) → IsSound p → size p.line < fuel → Filled (fill_loop fuel p) p
fill_loop_lem zero p v h = absurd (omega arith)
fill_loop_lem (suc fuel) p v h = elim (Option-cases (next_count p)) [
  | inl e ↦ (p, fill_loop_stop fuel p e, v, next_count-none p v.counted e, SameLimits-refl p)
  | inr (i, e) ↦
      let (t, g, w, r) = next_count-some p i v.counted e in
      let (q, x, s, d, f) = admit-IsSound p i t g w r v in
      let (z, y, s', n, f') = fill_loop_lem fuel q s (omega arith) in
      (z, fill_loop_step fuel p q i e x ∙ y, s', n, SameLimits-trans f f')
]

pub fill_total : (p : CountPlaces) → IsSound p → Filled (fill p) p
unfolding fill
fill_total p v = fill_loop_lem (suc (size p.line)) p v (omega arith)

pub left_cases : (s : TicketState) → (s ≡ left) ⊎ (s ≢ left)
left_cases left = inl refl
left_cases waiting = inr (λ e. cc)
left_cases active = inr (λ e. cc)

pub fill_unless_left_lem :
    (s : TicketState) (p : CountPlaces) → s ≢ left → fill_unless_left s p ≡ fill p
fill_unless_left_lem left p h = absurd (h refl)
fill_unless_left_lem waiting p h = refl
fill_unless_left_lem active p h = refl

pub leave_step :
    (p q : CountPlaces) (i : ℕ) (t : Ticket)
    → get_elem? p.tickets i ≡ some t
    → give_up t.state p i t ≡ some q
    → leave p i ≡ fill_unless_left t.state q
unfolding leave
leave_step p q i t g e = rw (g, leave) (rw e refl)

pub leave-left :
    (p : CountPlaces) (i : ℕ) (t : Ticket)
    → get_elem? p.tickets i ≡ some t
    → t.state ≡ left
    → leave p i ≡ some p
unfolding leave give_up
leave-left p i t g e = rw (g, leave) (rw e refl)

admit_keeps_left :
    (p q : CountPlaces) (i j : ℕ) (t u : Ticket)
    → get_elem? p.tickets i ≡ some t
    → t.state ≡ waiting
    → admit p i ≡ some q
    → get_elem? p.tickets j ≡ some u
    → u.state ≡ left
    → get_elem? q.tickets j ≡ some u
unfolding admit run
admit_keeps_left p q i j t u g w e h gone = elim (Option-cases (take_out p.line t.cls i)) [
  | inl x ↦ absurd (ground arith)
  | inr (l, x) ↦ ground (arith, get_elem?-set_cases p.tickets i j t (grant t) u g h)
]

-- The loop gives no place to a ticket that has left.
fill_loop_keeps_left :
    (fuel : ℕ) (p q : CountPlaces) (j : ℕ) (u : Ticket)
    → IsSound p
    → fill_loop fuel p ≡ some q
    → get_elem? p.tickets j ≡ some u
    → u.state ≡ left
    → get_elem? q.tickets j ≡ some u
unfolding fill_loop
fill_loop_keeps_left zero p q j u v e h gone = absurd (ground arith)
fill_loop_keeps_left (suc fuel) p q j u v e h gone = elim (Option-cases (next_count p)) [
  | inl x ↦ ground (arith, fill_loop_stop fuel p x)
  | inr (i, x) ↦
      let (t, g, w, r) = next_count-some p i v.counted x in
      let (b, y, s, _, _) = admit-IsSound p i t g w r v in
      fill_loop_keeps_left fuel b q j u s (sym (fill_loop_step fuel p b i x y) ∙ e)
        (admit_keeps_left p b i j t u g w y h gone) gone
]

-- What a ticket is once it has given up its place.
give_up_at :
    (s : TicketState) (p q : CountPlaces) (i : ℕ) (t : Ticket)
    → t.state ≡ s
    → get_elem? p.tickets i ≡ some t
    → give_up s p i t ≡ some q
    → (u : Ticket) × (get_elem? q.tickets i ≡ some u) × (u.state ≡ left)
unfolding give_up depart
give_up_at left p q i t w g e = (t, ground arith, w)
give_up_at active p q i t w g e =
    (depart t, ground (arith, get_elem?-set_self p.tickets i t (depart t) g), refl)
give_up_at waiting p q i t w g e = elim (Option-cases (take_out p.line t.cls i)) [
  | inl x ↦ absurd (ground arith)
  | inr (l, x) ↦ (depart t, ground (arith, get_elem?-set_self p.tickets i t (depart t) g), refl)
]

abbrev pub CountLeft : Option CountPlaces → CountPlaces → ℕ → Type 0
CountLeft r p i =
    (q : CountPlaces) × (r ≡ some q)
    × IsSound q
    × IsSettled q
    × SameLimits p q
    × ((u : Ticket) × (get_elem? q.tickets i ≡ some u) × (u.state ≡ left))

-- From sound counters with no free place while a count waits: `leave` of any count's ticket
-- raises nothing, ends, keeps the counters exact and both caps, and afterwards the ticket has left,
-- and a count waits only while every place is taken.
pub count_leave_total :
    (p : CountPlaces) (i : ℕ) (t : Ticket)
    → IsSound p
    → IsSettled p
    → get_elem? p.tickets i ≡ some t
    → CountLeft (leave p i) p i
unfolding fill
count_leave_total p i t v z g = elim (left_cases t.state) [
  | inl gone ↦ (p, leave-left p i t g gone, v, z, SameLimits-refl p, (t, g, gone))
  | inr n ↦
      let (q, e, s, f) = give_up-IsSound p i t g t.state refl v in
      let (u, h, gone) = give_up_at t.state p q i t refl g e in
      let (r, y, s', n', f') = fill_total q s in
      (
        r,
        leave_step p q i t g e ∙ (fill_unless_left_lem t.state q n ∙ y),
        s',
        n',
        SameLimits-trans f f',
        (u, fill_loop_keeps_left (suc (size q.line)) q r i u s y h gone, gone),
      )
]
