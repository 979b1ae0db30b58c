-- ===== src/Uploads/Live.antt =====
-- What the card holds under a name that the check of a graph takes for the caller's.
use simple_serving.Prelude.{
  ℕ, ◌<◌, ◌≡◌, refl, sym, ap, subst, ◌∙◌, ◌⊎◌, inl, inr, arith, Bool, true, Option, none, some,
  Text, text_eq, eq_of_text_eq, get_elem?,
}
use mathlib.Core.Option.{some-injective}
use simple_serving.Errors.{ok}
use simple_serving.Uploads.{
  UploadState, live, sending, stale, erased, Job, send, erase, Upload, Uploads, init, erase_name,
  is_live, object_at, owned_now, owns,
}
use simple_serving.Uploads.Steps.{
  nothing, bytes, Card, Reach, started, putting, erasing, asking, taking, ending,
}
use simple_serving.Uploads.Invariant.{NoSend, IsSound}
use simple_serving.Uploads.Kept.{put-IsSound, erase_at-IsSound, ask_erase-IsSound}
use simple_serving.Uploads.Ends.{take-IsSound, finish-IsSound}

init-IsSound : IsSound init (λ _. nothing)
unfolding init
init-IsSound = record { named = λ n i e. cc; fine = λ i u e. cc }

erase_name-IsSound :
    (scope name : Text) (s t : Uploads) (card : Card)
    → IsSound s card
    → erase_name scope name s ≡ ok t
    → IsSound t card
unfolding erase_name
erase_name-IsSound scope name s t card h e = erase_at-IsSound scope (s.names name) s t card h e

Reach-IsSound : {s : Uploads} {card : Card} → Reach s card → IsSound s card
Reach-IsSound started = init-IsSound
Reach-IsSound (putting now most i scope name r e) =
    put-IsSound now most i scope name _ _ _ (Reach-IsSound r) e
Reach-IsSound (erasing scope name r e) = erase_name-IsSound scope name _ _ _ (Reach-IsSound r) e
Reach-IsSound (asking i g x r) = ask_erase-IsSound i g x _ _ (Reach-IsSound r)
Reach-IsSound (taking now i r) = take-IsSound now i _ _ (Reach-IsSound r)
Reach-IsSound (ending now i done r) = finish-IsSound now done i _ _ (Reach-IsSound r)

-- The card's file of an upload: its bytes, while its erasure does not write over them.
pub record IsOnCard (now : ℕ) (scope name : Text) (s : Uploads) (card : Card) : Type 0 where
  pub position : ℕ
  pub upload : Upload
  pub listed : s.names name ≡ some position
  pub at : get_elem? s.objects position ≡ some upload
  pub own : upload.scope ≡ scope
  pub in_time : now < upload.expires
  pub on_card :
      ((x : Bool) × (upload.holder ≡ some (erase upload.generation x)))
      ⊎ (card name ≡ bytes position upload.generation)

erasing_or_free :
    (o : Option Job) (g : ℕ) → NoSend o g → ((x : Bool) × (o ≡ some (erase g x))) ⊎ (o ≡ none)
erasing_or_free none g h = inr refl
erasing_or_free (some (send k)) g h = elim h [ ]
erasing_or_free (some (erase k x)) g h = inl (x, ap (λ n. some (erase n x)) h)

live_lem : (t : UploadState) → is_live t ≡ true → t ≡ live
live_lem live h = refl
live_lem sending h = cc
live_lem stale h = cc
live_lem erased h = cc

on_card_lem :
    (s : Uploads) (card : Card) (now i : ℕ) (scope name : Text) (u : Upload)
    → IsSound s card
    → s.names name ≡ some i
    → get_elem? s.objects i ≡ some u
    → u.name ≡ name
    → owned_now now scope (some u) ≡ true
    → IsOnCard now scope name s card
on_card_lem s card now i scope name u h listed at same owned =
    let own : text_eq u.scope scope ≡ true = ground arith in
    let lives : is_live u.state ≡ true = ground arith in
    let f = h.fine i u at in
    let l = live_lem u.state lives in
    record {
      position = i;
      upload = u;
      listed = listed;
      at = at;
      own = eq_of_text_eq u.scope scope own;
      in_time = ground arith;
      on_card = elim (erasing_or_free u.holder u.generation (f.last_sent l).1) [
        | inl erasure ↦ inl erasure
        | inr free ↦ inr (
            subst (λ n. card n ≡ bytes i u.generation) same
              (f.on_card l free (subst (λ n. s.names n ≡ some i) (sym same) listed)))
      ];
    }

owned_cases :
    (s : Uploads) (card : Card) (now : ℕ) (scope name : Text) (p : Option ℕ) (o : Option Upload)
    → IsSound s card
    → s.names name ≡ p
    → object_at s p ≡ o
    → owned_now now scope o ≡ true
    → IsOnCard now scope name s card
owned_cases s card now scope name none none h listed at owned = cc
owned_cases s card now scope name none (some u) h listed at owned = cc
owned_cases s card now scope name (some i) none h listed at owned = cc
owned_cases s card now scope name (some i) (some u) h listed at owned =
    let (v, (k, n)) = h.named name i listed in
    on_card_lem s card now i scope name u h listed at
      (ap (λ w. w.name) (some-injective u v (sym at ∙ k)) ∙ n) owned

-- After any history of PUTs, erasures and sweeps whose writes to the card end well or not, in any
-- order that the locks allow, where no job is cancelled: a name that the check of a graph takes for
-- a live upload of the scope is listed as an upload of that scope, its time is not over, and the
-- card holds under the name the bytes of its last PUT, unless the erasure of that PUT has the lock
-- and writes over them.
pub owns-IsOnCard :
    (s : Uploads) (card : Card) (now : ℕ) (scope name : Text)
    → Reach s card
    → owns now scope s name ≡ true
    → IsOnCard now scope name s card
unfolding owns
owns-IsOnCard s card now scope name r h =
    owned_cases s card now scope name (s.names name) (object_at s (s.names name)) (Reach-IsSound r)
      refl refl h
