-- ===== src/Admission/Enter.antt =====
-- `enter` on each of its branches.
use simple_serving.Prelude.{
  ℕ, ◌+◌, true, false, Option, [], ◌∷◌, ◌++◌, ◌≡◌, refl, arith, ◌⊎◌, inl, inr, length, count-append,
  one_if, leb, get_elem?-append, set-append_last, length-append,
}
use simple_serving.Errors.{ok, err, queue_full}
use simple_serving.Config.{ServiceClass, class_eq, eq_of_class_eq}
use simple_serving.Line.{ticket, grant, counts, add, owner_up, Line}
use simple_serving.Line.Laws.{Holds-add, Holds-skip}
use simple_serving.Admission.{Admission, has_room, activate, owner_full, enter}
use simple_serving.Admission.Invariant.{
  IsCounted, IsSound, runs_in, runs_for, waits_for, SameLimits, IsSettled,
}
use simple_serving.Admission.Steps.{activate-IsCapped}

length-queue_add :
    (l : Line) (cls c : ServiceClass) (i : ℕ)
    → counts (add l cls i) c ≡ counts l c + one_if (class_eq cls c)
unfolding counts add
length-queue_add l cls c i =
    ground (arith, length-append (l.queue cls) (i ∷ []), eq_of_class_eq cls c)

module _ (a : Admission) (cls : ServiceClass) (owner : Option ℕ) where
  pub new_active : Admission
  unfolding activate
  new_active =
      activate (record a { tickets = a.tickets ++ ticket cls owner ∷ [] }) (length a.tickets)
        (ticket cls owner)

  pub new_waiting : Admission
  new_waiting = record a {
    tickets = a.tickets ++ ticket cls owner ∷ [];
    line = add a.line cls (length a.tickets);
    owner_waiting = owner_up a.owner_waiting owner;
  }

  pub new_active-IsCounted : IsCounted a → IsCounted new_active
  unfolding new_active ticket grant
  new_active-IsCounted v =
      rw (set-append_last a.tickets (ticket cls owner) (grant (ticket cls owner))) (record {
        line = Holds-skip a.line a.tickets (grant (ticket cls owner)) v.line refl;
        active = λ c.
            ground (
              arith,
              v.active c,
              count-append (runs_in c) a.tickets (grant (ticket cls owner) ∷ []),
            );
        owner_active = λ k. ground (
          arith,
          v.owner_active k,
          count-append (runs_for k) a.tickets (grant (ticket cls owner) ∷ []),
        );
        owner_waiting = λ k. ground (
          arith,
          v.owner_waiting k,
          count-append (waits_for k) a.tickets (grant (ticket cls owner) ∷ []),
        );
      })

  pub new_active-IsSound : has_room a (ticket cls owner) ≡ true → IsSound a → IsSound new_active
  unfolding new_active has_room ticket
  new_active-IsSound r v = record {
    counted = new_active-IsCounted v.counted;
    capped =
        activate-IsCapped (record a { tickets = a.tickets ++ ticket cls owner ∷ [] })
          (length a.tickets) (ticket cls owner) r
          (record {
            active = v.capped.active;
            owner_active = v.capped.owner_active;
            shared = v.capped.shared;
            waiting = v.capped.waiting;
            owner_waiting = v.capped.owner_waiting;
          });
  }

  pub new_waiting-IsSound :
      leb (a.limits cls).waiting (counts a.line cls) ≡ false
      → owner_full a.per_key_waiting a.owner_waiting owner ≡ false
      → IsSound a
      → IsSound new_waiting
  unfolding new_waiting ticket
  new_waiting-IsSound p q v = record {
    counted = record {
      line = Holds-add a.line a.tickets (ticket cls owner) v.counted.line refl;
      active = λ c.
          ground
            (arith, v.counted.active c, count-append (runs_in c) a.tickets (ticket cls owner ∷ []));
      owner_active = λ k. ground (
        arith,
        v.counted.owner_active k,
        count-append (runs_for k) a.tickets (ticket cls owner ∷ []),
      );
      owner_waiting = λ k. ground (
        arith,
        v.counted.owner_waiting k,
        count-append (waits_for k) a.tickets (ticket cls owner ∷ []),
      );
    };
    capped = record {
      active = λ c. v.capped.active c;
      owner_active = λ k. v.capped.owner_active k;
      shared = v.capped.shared;
      waiting = λ c. ground (
        arith,
        v.capped.waiting c,
        length-queue_add a.line cls c (length a.tickets),
        eq_of_class_eq cls c,
      );
      owner_waiting = λ k. ground (arith, v.capped.owner_waiting k);
    };
  }

  pub enter_cases :
      ((has_room a (ticket cls owner) ≡ true)
        × (enter a cls owner ≡ ok (new_active, length a.tickets)))
      ⊎ (((has_room a (ticket cls owner) ≡ false)
            × (leb (a.limits cls).waiting (counts a.line cls) ≡ false)
            × (owner_full a.per_key_waiting a.owner_waiting owner ≡ false)
            × (enter a cls owner ≡ ok (new_waiting, length a.tickets)))
          ⊎ ((has_room a (ticket cls owner) ≡ false)
              × ((leb (a.limits cls).waiting (counts a.line cls) ≡ true)
                  ⊎ (owner_full a.per_key_waiting a.owner_waiting owner ≡ true))
              × (enter a cls owner ≡ err queue_full)))
  unfolding enter new_active new_waiting
  enter_cases = ground arith

  pub new_active_tickets : new_active.tickets ≡ a.tickets ++ grant (ticket cls owner) ∷ []
  unfolding new_active
  new_active_tickets = set-append_last a.tickets (ticket cls owner) (grant (ticket cls owner))

  pub new_active-IsSettled : IsSettled a → IsSettled new_active
  unfolding new_active grant has_room
  new_active-IsSettled n j u g w =
      elim (get_elem?-append a.tickets (grant (ticket cls owner)) j u
        (rw (set-append_last a.tickets (ticket cls owner) (grant (ticket cls owner))) at g)) [
          | inl old ↦ ground (arith, n j u old w)
          | inr new ↦ ground arith
        ]

  pub new_waiting_tickets : new_waiting.tickets ≡ a.tickets ++ ticket cls owner ∷ []
  unfolding new_waiting
  new_waiting_tickets = refl

  pub same_active : SameLimits a new_active
  unfolding new_active
  same_active = record {
    limits = refl;
    per_key_active = refl;
    per_key_waiting = refl;
    shared = refl;
  }

  pub same_waiting : SameLimits a new_waiting
  unfolding new_waiting
  same_waiting = record {
    limits = refl;
    per_key_active = refl;
    per_key_waiting = refl;
    shared = refl;
  }

  pub new_waiting-IsSettled :
      has_room a (ticket cls owner) ≡ false → IsSettled a → IsSettled new_waiting
  unfolding new_waiting has_room
  new_waiting-IsSettled r n j u g w = elim (get_elem?-append a.tickets (ticket cls owner) j u g) [
    | inl old ↦ ground (arith, n j u old w)
    | inr new ↦ ground arith
  ]
