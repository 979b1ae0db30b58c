-- ===== src/Line/Order.antt =====
-- What a search through the line finds: the first class in order, and there the oldest ticket.
use native.Mathlib.Nat.{zero-add}
use simple_serving.Prelude.{
  ℕ, ◌≤◌, ◌<◌, Bool, true, false, none, some, List, ◌++◌, ◌≡◌, sym, ◌∙◌, ◌≢◌, ◌⊎◌, inl, inr, arith,
  get_elem?, find, find-append, find-positions, find-positions-none, find-positions_first,
  Option-cases,
}
use simple_serving.Config.{
  ServiceClass, reader, agent, internal, external, class_eq_refl, eq_of_class_eq, rank,
}
use simple_serving.Line.{waiting, Ticket, Line, in_order}
use simple_serving.Line.Laws.{waits_in, Holds}

abbrev FoundIn : (ℕ → Bool) → Line → ℕ → ServiceClass → Type 0
FoundIn q l i c =
    (find q (l.queue c) ≡ some i)
    × ((d : ServiceClass) → rank d < rank c → find q (l.queue d) ≡ none)

find-in_order_lem :
    (q : ℕ → Bool) (l : Line)
    → find q (in_order l) ≡ (elim (find q (l.queue reader)) [
      | some i ↦ some i
      | none ↦ elim (find q (l.queue agent)) [
        | some i ↦ some i
        | none ↦ elim (find q (l.queue internal)) [
          | some i ↦ some i
          | none ↦ find q (l.queue external)
        ]
      ]
    ])
unfolding in_order
find-in_order_lem q l = ground (
  arith,
  find-append q (l.queue reader) (l.queue agent ++ (l.queue internal ++ l.queue external)),
  find-append q (l.queue agent) (l.queue internal ++ l.queue external),
  find-append q (l.queue internal) (l.queue external),
)

none_before_reader :
    (q : ℕ → Bool) (l : Line) (d : ServiceClass) → rank d < 0 → find q (l.queue d) ≡ none
none_before_reader q l d h = absurd (omega arith)

none_before_agent :
    (q : ℕ → Bool) (l : Line)
    → find q (l.queue reader) ≡ none
    → (d : ServiceClass) → rank d < 1
    → find q (l.queue d) ≡ none
none_before_agent q l r reader h = r
none_before_agent q l r d h = absurd (omega arith)

none_before_internal :
    (q : ℕ → Bool) (l : Line)
    → find q (l.queue reader) ≡ none
    → find q (l.queue agent) ≡ none
    → (d : ServiceClass) → rank d < 2
    → find q (l.queue d) ≡ none
none_before_internal q l r a reader h = r
none_before_internal q l r a agent h = a
none_before_internal q l r a d h = absurd (omega arith)

none_before_external :
    (q : ℕ → Bool) (l : Line)
    → find q (l.queue reader) ≡ none
    → find q (l.queue agent) ≡ none
    → find q (l.queue internal) ≡ none
    → (d : ServiceClass) → rank d < 3
    → find q (l.queue d) ≡ none
none_before_external q l r a n reader h = r
none_before_external q l r a n agent h = a
none_before_external q l r a n internal h = n
none_before_external q l r a n external h = absurd (omega arith)

found_in :
    (q : ℕ → Bool) (l : Line) (i : ℕ)
    → find q (in_order l) ≡ some i
    → (c : ServiceClass) × FoundIn q l i c
found_in q l i h = elim (Option-cases (find q (l.queue reader))) [
  | inr (j, r) ↦ (reader, (ground (arith, find-in_order_lem q l), none_before_reader q l))
  | inl r ↦ elim (Option-cases (find q (l.queue agent))) [
    | inr (j, a) ↦ (agent, (ground (arith, find-in_order_lem q l), none_before_agent q l r))
    | inl a ↦ elim (Option-cases (find q (l.queue internal))) [
      | inr (j, n) ↦
          (internal, (ground (arith, find-in_order_lem q l), none_before_internal q l r a))
      | inl n ↦ (external, (ground (arith, find-in_order_lem q l), none_before_external q l r a n))
    ]
  ]
]

-- A search of the line finds a waiting ticket that passes.
pub find-in_order :
    (q : ℕ → Bool) (l : Line) (ts : List Ticket) (i : ℕ)
    → Holds l ts
    → find q (in_order l) ≡ some i
    → (t : Ticket) × (get_elem? ts i ≡ some t) × (t.state ≡ waiting) × (q i ≡ true)
find-in_order q l ts i h f =
    let (c, (g, _)) = found_in q l i f in
    let (j, t, e, at, w, p) = find-positions (waits_in c) q 0 ts i (rw (h.queues c) at g) in
    (t, ground (arith, zero-add j), ground arith, p)

find-in_order-none_in :
    (q : ℕ → Bool) (l : Line) (c : ServiceClass)
    → find q (in_order l) ≡ none
    → find q (l.queue c) ≡ none
find-in_order-none_in q l reader f = ground (arith, find-in_order_lem q l)
find-in_order-none_in q l agent f = ground (arith, find-in_order_lem q l)
find-in_order-none_in q l internal f = ground (arith, find-in_order_lem q l)
find-in_order-none_in q l external f = ground (arith, find-in_order_lem q l)

-- A search that finds nothing has refused every waiting ticket.
pub find-in_order-none :
    (q : ℕ → Bool) (l : Line) (ts : List Ticket) (i : ℕ) (t : Ticket)
    → Holds l ts
    → find q (in_order l) ≡ none
    → get_elem? ts i ≡ some t
    → t.state ≡ waiting
    → q i ≡ false
find-in_order-none q l ts i t h f g w = rw zero-add at (
    find-positions-none (waits_in t.cls) q 0 ts i t
      (rw (h.queues t.cls) at (find-in_order-none_in q l t.cls f)) g
      (ground (arith, class_eq_refl t.cls)))

class_of_found :
    (q : ℕ → Bool) (l : Line) (ts : List Ticket) (i : ℕ) (c : ServiceClass) (t : Ticket)
    → Holds l ts
    → find q (l.queue c) ≡ some i
    → get_elem? ts i ≡ some t
    → t.cls ≡ c
class_of_found q l ts i c t h e g =
    let (j, v, at, k, w, _) = find-positions (waits_in c) q 0 ts i (rw (h.queues c) at e) in
    ground (arith, zero-add j, eq_of_class_eq v.cls c)

-- A queue with a waiting ticket that passes is not searched in vain.
found_not_none :
    (q : ℕ → Bool) (l : Line) (ts : List Ticket) (j : ℕ) (u : Ticket)
    → Holds l ts
    → get_elem? ts j ≡ some u
    → u.state ≡ waiting
    → q j ≡ true
    → find q (l.queue u.cls) ≢ none
found_not_none q l ts j u h k w p e = ground (
  arith,
  zero-add j,
  find-positions-none (waits_in u.cls) q 0 ts j u (rw (h.queues u.cls) at e) k
      (ground (arith, class_eq_refl u.cls)),
)

rank_cases : (c d : ServiceClass) → (rank c < rank d) ⊎ ((c ≡ d) ⊎ (rank d < rank c))
rank_cases c d = ground arith

-- What is found comes before every other waiting ticket that passes: by its class, or within one
-- class by its arrival.
pub find-in_order_first :
    (q : ℕ → Bool) (l : Line) (ts : List Ticket) (i j : ℕ) (t u : Ticket)
    → Holds l ts
    → find q (in_order l) ≡ some i
    → get_elem? ts i ≡ some t
    → get_elem? ts j ≡ some u
    → u.state ≡ waiting
    → q j ≡ true
    → (rank t.cls < rank u.cls) ⊎ ((t.cls ≡ u.cls) × (i ≤ j))
find-in_order_first q l ts i j t u h f g k w p =
    let (c, (e, before)) = found_in q l i f in
    let same = class_of_found q l ts i c t h e g in
    let at_same = λ (x : u.cls ≡ c). rw zero-add at (
      find-positions_first (waits_in c) q 0 ts i j u (rw (h.queues c) at e) k (ground arith)
        (rw (zero-add j) p)) in
    let refused = λ (x : rank u.cls < rank c). found_not_none q l ts j u h k w p (before u.cls x) in
    elim (rank_cases u.cls c) [
      | inl x ↦ absurd (refused x)
      | inr (inl x) ↦ inr (same ∙ sym x, at_same x)
      | inr (inr x) ↦ inl (rw same x)
    ]
