-- ===== src/Uploads/Jobs.antt =====
-- How one upload stays sound when a job asks for its lock or gets it.
use simple_serving.Prelude.{
  ℕ, ◌≡◌, ap, subst, arith, Bool, true, Option, none, some, List, ◌∷◌, Text,
}
use simple_serving.Uploads.{Job, send, erase, Upload, is_number, enqueue, begin_send}
use simple_serving.Uploads.Steps.{Card}
use simple_serving.Uploads.Invariant.{
  Sends, low, Sends-enqueue_erase, Sends-enqueue_send, Sends-lower, Sends-rest, IsFine,
}

pub listed_lem : (o : Option ℕ) (i : ℕ) → is_number o i ≡ true → o ≡ some i
listed_lem none i h = cc
listed_lem (some j) i h = ap some (ground arith)

module _ {names : Text → Option ℕ} {card : Card} {i : ℕ} (u : Upload)
    (f : IsFine names card i u) where
  pub IsFine-renewed : (time : ℕ) → IsFine names card i (record u { expires = time })
  IsFine-renewed time = record {
    held_below = f.held_below;
    ascending = f.ascending;
    held_listed = f.held_listed;
    last_sent = f.last_sent;
    on_card = f.on_card;
  }

  pub IsFine-asked : (g : ℕ) (e : Bool) → IsFine names card i (enqueue (erase g e) u)
  IsFine-asked g e = record {
    held_below = f.held_below;
    ascending = Sends-enqueue_erase (low u.holder) u.generation g e u.waiting f.ascending;
    held_listed = f.held_listed;
    last_sent = λ l. (
      Sends-enqueue_erase u.generation u.generation g e u.waiting (f.last_sent l).0,
      (f.last_sent l).1,
    );
    on_card = f.on_card;
  }

  pub IsFine-begun : IsFine names card i (begin_send u)
  IsFine-begun = record {
    held_below = omega (arith, f.held_below);
    ascending = Sends-enqueue_send (low u.holder) u.generation u.waiting f.held_below f.ascending;
    held_listed = f.held_listed;
    last_sent = λ l. cc;
    on_card = λ l n e. cc;
  }

  -- The first that waits leaves the queue.
  pub IsFine-rest :
      (job : Job) (rest : List Job)
      → u.waiting ≡ job ∷ rest
      → IsFine names card i (record u { waiting = rest })
  IsFine-rest job rest w = record {
    held_below = f.held_below;
    ascending =
        Sends-rest (low u.holder) u.generation job rest
          (subst (λ js. Sends (low u.holder) u.generation js) w f.ascending);
    held_listed = f.held_listed;
    last_sent = λ l. (
      Sends-rest u.generation u.generation job rest
          (subst (λ js. Sends u.generation u.generation js) w (f.last_sent l).0),
      (f.last_sent l).1,
    );
    on_card = f.on_card;
  }

  -- A send gets the lock.
  pub IsFine-send :
      (g : ℕ) (rest : List Job)
      → u.waiting ≡ send g ∷ rest
      → names u.name ≡ some i
      → IsFine names card i (record u { waiting = rest; holder = some (send g) })
  IsFine-send g rest w listed =
      let s = subst (λ js. Sends (low u.holder) u.generation js) w f.ascending in
      record {
        held_below = s.1.0;
        ascending = s.1.1;
        held_listed = λ h. listed;
        last_sent = λ l.
            let t = subst (λ js. Sends u.generation u.generation js) w (f.last_sent l).0 in
            absurd (omega (arith, t.0, t.1.0));
        on_card = λ l n e. cc;
      }

  -- An erasure gets the lock.
  pub IsFine-erase :
      (g : ℕ) (x : Bool) (rest : List Job)
      → u.waiting ≡ erase g x ∷ rest
      → names u.name ≡ some i
      → g ≡ u.generation
      → IsFine names card i (record u { waiting = rest; holder = some (erase g x) })
  IsFine-erase g x rest w listed same =
      let r = IsFine-rest (erase g x) rest w in
      record {
        held_below = omega arith;
        ascending = Sends-lower (low u.holder) 0 u.generation rest (omega arith) r.ascending;
        held_listed = λ h. listed;
        last_sent = λ l. ((r.last_sent l).0, same);
        on_card = λ l n e. cc;
      }
