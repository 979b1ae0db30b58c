-- ===== src/Admission/Steps.antt =====
-- Each part of the operations keeps the counters exact and the caps.
use simple_serving.Prelude.{ℕ, suc, true, some, ◌≡◌, refl, arith, get_elem?, set, count-set}
use simple_serving.Config.{eq_of_class_eq}
use simple_serving.Line.{Line, size, owner_down, Ticket, waiting, grant}
use simple_serving.Line.Laws.{Holds, take_out-Holds, counts-Holds, waits_in}
use simple_serving.Admission.{Admission, has_room, activate, admit}
use simple_serving.Admission.Invariant.{
  IsCounted, IsCapped, IsSound, runs_in, runs_for, waits_for, SameLimits,
}

-- Room means that one more ticket keeps the Active caps.
pub activate-IsCapped :
    (a : Admission) (i : ℕ) (t : Ticket)
    → has_room a t ≡ true
    → IsCapped a
    → IsCapped (activate a i t)
unfolding activate has_room
activate-IsCapped a i t r v = record {
  active = λ c. ground (arith, v.active c, eq_of_class_eq t.cls c);
  owner_active = λ k. ground (arith, v.owner_active k);
  shared = ground (arith, v.shared);
  waiting = λ c. v.waiting c;
  owner_waiting = λ k. v.owner_waiting k;
}

abbrev pub Admits : Admission → ℕ → Type 0
Admits a i =
    (b : Admission) × (admit a i ≡ some b)
    × IsSound b
    × (size a.line ≡ suc (size b.line))
    × SameLimits a b

module _ (a : Admission) (i : ℕ) (t : Ticket) (at : get_elem? a.tickets i ≡ some t) where
  -- A ticket that is granted its place out of the line.
  module _ (w : t.state ≡ waiting) (l : Line) (h : Holds l (set a.tickets i (grant t))) where
    pub admitted : Admission
    unfolding activate
    admitted =
        activate (record a { line = l; owner_waiting = owner_down a.owner_waiting t.owner }) i t

    admitted-IsCounted : IsCounted a → IsCounted admitted
    unfolding admitted grant
    admitted-IsCounted v = record {
      line = h;
      active = λ c. ground (arith, v.active c, count-set (runs_in c) a.tickets i t (grant t) at);
      owner_active =
          λ k. ground (arith, v.owner_active k, count-set (runs_for k) a.tickets i t (grant t) at);
      owner_waiting = λ k.
          ground (arith, v.owner_waiting k, count-set (waits_for k) a.tickets i t (grant t) at);
    }

    admitted-IsCapped : has_room a t ≡ true → IsCounted a → IsCapped a → IsCapped admitted
    unfolding admitted grant has_room
    admitted-IsCapped r n v = record {
      active = λ c. ground (arith, v.active c, eq_of_class_eq t.cls c);
      owner_active = λ k. ground (arith, v.owner_active k);
      shared = ground (arith, v.shared);
      waiting = λ c. ground (
        arith,
        v.waiting c,
        counts-Holds a.line a.tickets c n.line,
        counts-Holds l (set a.tickets i (grant t)) c h,
        count-set (waits_in c) a.tickets i t (grant t) at,
      );
      owner_waiting = λ k. ground (arith, v.owner_waiting k);
    }

  pub admit-IsSound : t.state ≡ waiting → has_room a t ≡ true → IsSound a → Admits a i
  unfolding admit admitted grant
  admit-IsSound w r v =
      let (l, e, h, s) = take_out-Holds a.line a.tickets i t (grant t) v.counted.line at w refl in
      (
        admitted w l h,
        rw at (rw e refl),
        record {
          counted = admitted-IsCounted w l h v.counted;
          capped = admitted-IsCapped w l h r v.counted v.capped;
        },
        s,
        record { limits = refl; per_key_active = refl; per_key_waiting = refl; shared = refl },
      )
