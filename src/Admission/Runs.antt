-- ===== src/Admission/Runs.antt =====
-- Every history of calls: `enter`, `leave` of any ticket made so far, and the cancellation of a
-- waiting request's future by its task.
use simple_serving.Prelude.{
  ℕ, ◌+◌, ◌≤◌, Option, some, List, ◌≡◌, refl, sym, ◌∙◌, subst, arith, inl, inr, get_elem?, set,
  count, get_elem?-set_inv, count-set, positions-set_same,
}
use simple_serving.Errors.{ok}
use simple_serving.Config.{ServiceClass, agent, internal, external, Config}
use simple_serving.Line.{Ticket, pending, cancelled, counts}
use simple_serving.Line.Laws.{Holds-none, counts-Holds, waits_in}
use simple_serving.Admission.{Admission, init, enter, leave, has_room}
use simple_serving.Admission.Invariant.{
  IsSound, IsSettled, SameLimits, SameLimits-trans, runs_in, runs_for, waits_for,
}
use simple_serving.Admission.Entered.{enter_accepted}
use simple_serving.Admission.Leave.{same}
use simple_serving.Admission.Dispatch.{leave_total}

-- The task that awaits `granted` is cancelled: a pending future is cancelled with it.
unfoldable pub cancel : Admission → ℕ → Ticket → Admission
cancel a i t = record a { tickets = set a.tickets i (record t { granted = cancelled }) }

pub data Step (a : Admission) (b : Admission) : Type 0 where
  enters :
      (cls : ServiceClass) (owner : Option ℕ) (i : ℕ) → enter a cls owner ≡ ok (b, i) → Step a b
  leaves : (i : ℕ) (t : Ticket) → get_elem? a.tickets i ≡ some t → leave a i ≡ some b → Step a b
  cancels :
      (i : ℕ) (t : Ticket)
      → get_elem? a.tickets i ≡ some t
      → t.granted ≡ pending
      → b ≡ cancel a i t
      → Step a b

pub data Reach (a : Admission) : Admission → Type 0 where
  here : Reach a a
  next : {b c : Admission} → Reach a b → Step b c → Reach a c

abbrev pub HoldsBetween : Admission → Admission → Type 0
HoldsBetween a b = IsSound b × IsSettled b × SameLimits a b

cancel_sound :
    (a : Admission) (i : ℕ) (t : Ticket)
    → get_elem? a.tickets i ≡ some t
    → IsSound a
    → IsSettled a
    → HoldsBetween a (cancel a i t)
unfolding cancel has_room
cancel_sound a i t g v z =
    let u : Ticket = record t { granted = cancelled } in
    (
      record {
        counted = record {
          line = record {
            queues = λ c.
                v.counted.line.queues c
                ∙ sym (positions-set_same (waits_in c) 0 a.tickets i t u g refl);
          };
          active = λ c. ground (arith, v.counted.active c, count-set (runs_in c) a.tickets i t u g);
          owner_active = λ k.
              ground (arith, v.counted.owner_active k, count-set (runs_for k) a.tickets i t u g);
          owner_waiting = λ k.
              ground (arith, v.counted.owner_waiting k, count-set (waits_for k) a.tickets i t u g);
        };
        capped = record {
          active = v.capped.active;
          owner_active = v.capped.owner_active;
          shared = v.capped.shared;
          waiting = v.capped.waiting;
          owner_waiting = v.capped.owner_waiting;
        };
      },
      (λ j x h w. elim (get_elem?-set_inv a.tickets i j u x h) [
        | inl old ↦ ground (arith, z j x old w)
        | inr (_, e) ↦ ground (arith, z i t g)
      ]),
      record { limits = refl; per_key_active = refl; per_key_waiting = refl; shared = refl },
    )

Step-keeps : {a b : Admission} → IsSound a → IsSettled a → Step a b → HoldsBetween a b
Step-keeps {a} {b} v z (enters cls owner i e) =
    let (s, n, f, _, _) = enter_accepted a b cls owner i v z e in (s, n, f)
Step-keeps {a} {b} v z (leaves i t g e) =
    let (c, y, s, n, f, _) = leave_total a i t v z g in
    let same : c ≡ b = ground arith in subst (HoldsBetween a) same (s, n, f)
Step-keeps {a} {b} v z (cancels i t g p e) = rw e (cancel_sound a i t g v z)

init-IsSound : (c : Config) → IsSound (init c)
unfolding init counts
init-IsSound c = record {
  counted = record {
    line = Holds-none;
    active = λ _. refl;
    owner_active = λ _. refl;
    owner_waiting = λ _. refl;
  };
  capped = record {
    active = λ _. omega arith;
    owner_active = λ _. omega arith;
    shared = omega arith;
    waiting = λ _. omega arith;
    owner_waiting = λ _. omega arith;
  };
}

init-IsSettled : (c : Config) → IsSettled (init c)
unfolding init
init-IsSettled c i t g w = absurd (ground arith)

-- After any history of calls the counters are those of the tickets, every cap of the configuration
-- is kept, and no ticket waits that has room.
pub Reach-IsSound : (c : Config) {a : Admission} → Reach (init c) a → HoldsBetween (init c) a
Reach-IsSound c here = (init-IsSound c, init-IsSettled c, same (init c))
Reach-IsSound c (next r s) =
    let (v, z, f) = Reach-IsSound c r in
    let (v', z', f') = Step-keeps v z s in (v', z', SameLimits-trans f f')

-- The number of tickets of a heap that pass.
abbrev pub HeapCaps : Config → List Ticket → Type 0
HeapCaps c ts =
    ((cls : ServiceClass) → count (runs_in cls) ts ≤ (c.limits cls).active)
    × ((cls : ServiceClass) → count (waits_in cls) ts ≤ (c.limits cls).waiting)
    × ((k : ℕ) → count (runs_for k) ts ≤ c.per_key_active)
    × ((k : ℕ) → count (waits_for k) ts ≤ c.per_key_waiting)
    × (count (runs_in agent) ts + count (runs_in internal) ts + count (runs_in external) ts
        ≤ c.shared_places)

-- After any history of `enter`, `leave` and cancelled futures from a new `Admission`, the tickets
-- themselves keep the configuration: for each class and each outside key no more are active, and
-- no more wait, than its caps allow, and the shared classes have no more active tickets than there
-- are shared places.
pub Reach-HeapCaps : (c : Config) {a : Admission} → Reach (init c) a → HeapCaps c a.tickets
unfolding init
Reach-HeapCaps c {a} r =
    let (v, _, f) = Reach-IsSound c r in
    (
      λ cls. ground (arith, v.counted.active cls, v.capped.active cls, f.limits),
      λ cls.
          ground (
            arith,
            v.capped.waiting cls,
            counts-Holds a.line a.tickets cls v.counted.line,
            f.limits,
          ),
      λ k. ground (arith, v.counted.owner_active k, v.capped.owner_active k, f.per_key_active),
      λ k. ground (arith, v.counted.owner_waiting k, v.capped.owner_waiting k, f.per_key_waiting),
      ground (
        arith,
        v.counted.active agent,
        v.counted.active internal,
        v.counted.active external,
        v.capped.shared,
        f.shared,
      ),
    )
