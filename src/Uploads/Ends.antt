-- ===== src/Uploads/Ends.antt =====
-- The jobs that get the lock and end keep the invariant of the uploads.
use simple_serving.Prelude.{
  ℕ, ltb, ◌≡◌, ◌≢◌, refl, ap, subst, ◌∙◌, arith, inl, inr, Bool, true, false, ◌&&◌, ◌||◌, not,
  Option, none, some, List, [], ◌∷◌, Text, text_eq, text_eq_refl, get_elem?, if◌then◌else◌,
  Bool-cases, get_elem?-set_self,
}
use simple_serving.Uploads.{
  UploadState, live, stale, erased, Job, send, erase, Upload, Uploads, is_held, is_number,
  is_listed, is_erased, is_current, write, begin, take_first, take_lock, take, set_if, end_job,
  finish_at, finish,
}
use simple_serving.Uploads.Steps.{
  OnCard, bytes, Card, written, put_card, card_by, card_at, card_after,
}
use simple_serving.Uploads.Invariant.{Sends, low, NoSend, Sends-lower, IsFine, IsSound}
use simple_serving.Uploads.Writes.{as_was, at_own, write-IsSound}
use simple_serving.Uploads.Jobs.{listed_lem, IsFine-rest, IsFine-send, IsFine-erase}
use simple_serving.Uploads.Kept.{after_sweep-IsSound}

begin-IsSound :
    (now i : ℕ) (job : Job) (rest : List Job) (u : Upload) (s : Uploads) (card : Card)
    → IsSound s card
    → get_elem? s.objects i ≡ some u
    → u.waiting ≡ job ∷ rest
    → is_held u.holder ≡ false
    → IsSound (begin now i job (record u { waiting = rest }) s) card
begin-IsSound now i (send g) rest u s card h at w free = elim (Bool-cases (is_listed s i u)) [
  | inl e ↦ rw e (
      write-IsSound s card card i u (record u { waiting = rest; holder = some (send g) }) h at refl
        (as_was λ n. refl)
        (IsFine-send u (h.fine i u at) g rest w (listed_lem (s.names u.name) i e)))
  | inr e ↦ rw e (
      write-IsSound s card card i u (record u { waiting = rest }) h at refl (as_was λ n. refl)
        (IsFine-rest u (h.fine i u at) (send g) rest w))
]
begin-IsSound now i (erase g x) rest u s card h at w free =
    elim (Bool-cases (not (is_current s i u g) || (x && ltb now u.expires) || is_erased u.state)) [
      | inl e ↦ rw e (
          after_sweep-IsSound x now g i (record u { waiting = rest }) (record u { waiting = rest })
            (write i (record u { waiting = rest }) s) card
            (write-IsSound s card card i u (record u { waiting = rest }) h at refl
              (as_was λ n. refl) (IsFine-rest u (h.fine i u at) (erase g x) rest w))
            (get_elem?-set_self s.objects i u (record u { waiting = rest }) at) free)
      | inr e ↦
          let listed : is_number (s.names u.name) i ≡ true = ground arith in
          let same : g ≡ u.generation = ground arith in
          rw e (
            write-IsSound s card card i u (record u { waiting = rest; holder = some (erase g x) }) h
              at refl (as_was λ n. refl)
              (IsFine-erase u (h.fine i u at) g x rest w (listed_lem (s.names u.name) i listed)
                same))
    ]

take_first-IsSound :
    (now i : ℕ) (u : Upload) (jobs : List Job) (s : Uploads) (card : Card)
    → IsSound s card
    → get_elem? s.objects i ≡ some u
    → u.waiting ≡ jobs
    → is_held u.holder ≡ false
    → IsSound (take_first now i u jobs s) card
take_first-IsSound now i u [] s card h at w free = h
take_first-IsSound now i u (job ∷ rest) s card h at w free =
    begin-IsSound now i job rest u s card h at w free

take_lock-IsSound :
    (now i : ℕ) (o : Option Upload) (s : Uploads) (card : Card)
    → IsSound s card
    → get_elem? s.objects i ≡ o
    → IsSound (take_lock now i o s) card
take_lock-IsSound now i none s card h at = h
take_lock-IsSound now i (some u) s card h at = elim (Bool-cases (is_held u.holder)) [
  | inl e ↦ rw e h
  | inr e ↦ rw e (take_first-IsSound now i u u.waiting s card h at refl e)
]

pub take-IsSound :
    (now i : ℕ) (s : Uploads) (card : Card) → IsSound s card → IsSound (take now i s) card
unfolding take
take-IsSound now i s card h = take_lock-IsSound now i (get_elem? s.objects i) s card h refl

put_card-same : (name : Text) (v : OnCard) (card : Card) → put_card name v card name ≡ v
put_card-same name v card = rw (text_eq_refl name) refl

put_card-other :
    (name n : Text) (v : OnCard) (card : Card)
    → text_eq name n ≡ false
    → put_card name v card n ≡ card n
put_card-other name n v card h = rw h refl

module _ {names : Text → Option ℕ} {card : Card} {i : ℕ} (u : Upload)
    (f : IsFine names card i u) where
  waiting-Sends : Sends 0 u.generation u.waiting
  waiting-Sends = Sends-lower (low u.holder) 0 u.generation u.waiting (omega arith) f.ascending

  -- A send that has ended: it was the last if it is current.
  IsFine-sent :
      (g : ℕ) (done current : Bool)
      → u.holder ≡ some (send g)
      → (current ≡ true → g ≡ u.generation)
      → IsFine names
          (put_card u.name (written done i (send g)) card)
          i
          (set_if current (if done then live else stale) u)
  IsFine-sent g true true e same = record {
    held_below = omega arith;
    ascending = waiting-Sends;
    held_listed = λ h. cc;
    last_sent = λ l. (
      subst (λ k. Sends k u.generation u.waiting) (same refl)
          (subst (λ o. Sends (low o) u.generation u.waiting) e f.ascending),
      tt,
    );
    on_card = λ l n k. put_card-same u.name (bytes i g) card ∙ ap (bytes i) (same refl);
  }
  IsFine-sent g false true e same = record {
    held_below = omega arith;
    ascending = waiting-Sends;
    held_listed = λ h. cc;
    last_sent = λ l. cc;
    on_card = λ l n k. cc;
  }
  IsFine-sent g done false e same = record {
    held_below = omega arith;
    ascending = waiting-Sends;
    held_listed = λ h. cc;
    last_sent = λ l. elim (subst (λ o. NoSend o u.generation) e (f.last_sent l).1) [ ];
    on_card = λ l n k. elim (subst (λ o. NoSend o u.generation) e (f.last_sent l).1) [ ];
  }

  -- An erasure that has ended: the upload is not live if it is current.
  IsFine-erased :
      (g : ℕ) (x done current : Bool)
      → u.holder ≡ some (erase g x)
      → (current ≡ false → g ≢ u.generation)
      → IsFine names
          (put_card u.name (written done i (erase g x)) card)
          i
          (set_if current (if done then erased else stale) u)
  IsFine-erased g x true true e other = record {
    held_below = omega arith;
    ascending = waiting-Sends;
    held_listed = λ h. cc;
    last_sent = λ l. cc;
    on_card = λ l n k. cc;
  }
  IsFine-erased g x false true e other = record {
    held_below = omega arith;
    ascending = waiting-Sends;
    held_listed = λ h. cc;
    last_sent = λ l. cc;
    on_card = λ l n k. cc;
  }
  IsFine-erased g x done false e other = record {
    held_below = omega arith;
    ascending = waiting-Sends;
    held_listed = λ h. cc;
    last_sent = λ l. absurd (other refl (subst (λ o. NoSend o u.generation) e (f.last_sent l).1));
    on_card = λ l n k. absurd (other refl (subst (λ o. NoSend o u.generation) e (f.last_sent l).1));
  }

set_if_name :
    (current : Bool) (next : UploadState) (u : Upload) → (set_if current next u).name ≡ u.name
set_if_name true next u = refl
set_if_name false next u = refl

set_if_free :
    (current : Bool) (next : UploadState) (u : Upload)
    → is_held (set_if current next u).holder ≡ false
set_if_free true next u = refl
set_if_free false next u = refl

current_lem :
    (s : Uploads) (i : ℕ) (u : Upload) (g : ℕ) → is_current s i u g ≡ true → g ≡ u.generation
current_lem s i u g h = ground arith

not_current_lem :
    (s : Uploads) (i : ℕ) (u : Upload) (g : ℕ)
    → s.names u.name ≡ some i
    → is_current s i u g ≡ false
    → g ≢ u.generation
not_current_lem s i u g listed h same =
    let here : is_number (s.names u.name) i ≡ true = rw listed (ground arith) in
    absurd (ground arith)

end_job-IsSound :
    (now : ℕ) (done : Bool) (i : ℕ) (u : Upload) (o : Option Job) (s : Uploads) (card : Card)
    → IsSound s card
    → get_elem? s.objects i ≡ some u
    → u.holder ≡ o
    → IsSound (end_job now done i u o s) (card_by done i u o card)
end_job-IsSound now done i u none s card h at e = h
end_job-IsSound now done i u (some (send g)) s card h at e =
    let f = h.fine i u at in
    let current = is_current s i u g in
    let v = set_if current (if done then live else stale) u in
    let held : is_held u.holder ≡ true = ap is_held e in
    write-IsSound s card (put_card u.name (written done i (send g)) card) i u v h at
      (set_if_name current (if done then live else stale) u)
      (at_own (f.held_listed held)
        (λ n other. put_card-other u.name n (written done i (send g)) card other))
      (IsFine-sent u f g done current e (current_lem s i u g))
end_job-IsSound now done i u (some (erase g x)) s card h at e =
    let f = h.fine i u at in
    let current = is_current s i u g in
    let v = set_if current (if done then erased else stale) u in
    let held : is_held u.holder ≡ true = ap is_held e in
    let ended =
      write-IsSound s card (put_card u.name (written done i (erase g x)) card) i u v h at
        (set_if_name current (if done then erased else stale) u)
        (at_own (f.held_listed held)
          (λ n other. put_card-other u.name n (written done i (erase g x)) card other))
        (IsFine-erased u f g x done current e (not_current_lem s i u g (f.held_listed held))) in
    after_sweep-IsSound x now g i u v (write i v s)
      (put_card u.name (written done i (erase g x)) card) ended
      (get_elem?-set_self s.objects i u v at)
      (set_if_free current (if done then erased else stale) u)

finish_at-IsSound :
    (now : ℕ) (done : Bool) (i : ℕ) (o : Option Upload) (s : Uploads) (card : Card)
    → IsSound s card
    → get_elem? s.objects i ≡ o
    → IsSound (finish_at now done i o s) (card_at done i o card)
finish_at-IsSound now done i none s card h at = h
finish_at-IsSound now done i (some u) s card h at =
    end_job-IsSound now done i u u.holder s card h at refl

pub finish-IsSound :
    (now : ℕ) (done : Bool) (i : ℕ) (s : Uploads) (card : Card)
    → IsSound s card
    → IsSound (finish now done i s) (card_after done i s card)
unfolding finish card_after
finish-IsSound now done i s card h =
    finish_at-IsSound now done i (get_elem? s.objects i) s card h refl
