-- ===== src/Uploads/Invariant.antt =====
-- The invariant of the uploads and of what the card holds.
use simple_serving.Prelude.{
  Empty, ℕ, suc, ◌≤◌, ◌<◌, ◌≡◌, arith, Bool, true, Option, none, some, List, [], ◌∷◌, ◌++◌, Text,
  get_elem?,
}
use simple_serving.Uploads.{live, Job, send, erase, Upload, Uploads, is_held}
use simple_serving.Uploads.Steps.{bytes, Card}

-- The sends among jobs have ascending generations, above `low` and at most `high`.
abbrev pub Sends : ℕ → ℕ → List Job → Type 0
Sends low high [] = Unit
Sends low high (send g ∷ jobs) = (low < g) × ((g ≤ high) × Sends g high jobs)
Sends low high (erase g expired ∷ jobs) = Sends low high jobs

-- The generation that the send of the one with the lock has.
abbrev pub low : Option Job → ℕ
low none = 0
low (some (send g)) = g
low (some (erase g expired)) = 0

-- While an upload is live, the lock is free, or its current erasure has it.
abbrev pub NoSend : Option Job → ℕ → Type 0
NoSend none generation = Unit
NoSend (some (send g)) generation = Empty
NoSend (some (erase g expired)) generation = g ≡ generation

pub Sends-enqueue_erase :
    (l h g : ℕ) (e : Bool) (jobs : List Job) → Sends l h jobs → Sends l h (jobs ++ erase g e ∷ [])
Sends-enqueue_erase l h g e [] s = tt
Sends-enqueue_erase l h g e (send k ∷ jobs) s =
    (s.0, (s.1.0, Sends-enqueue_erase k h g e jobs s.1.1))
Sends-enqueue_erase l h g e (erase k f ∷ jobs) s = Sends-enqueue_erase l h g e jobs s

pub Sends-enqueue_send :
    (l h : ℕ) (jobs : List Job)
    → l ≤ h
    → Sends l h jobs
    → Sends l (suc h) (jobs ++ send (suc h) ∷ [])
Sends-enqueue_send l h [] le s = (omega arith, (omega arith, tt))
Sends-enqueue_send l h (send k ∷ jobs) le s =
    (s.0, (omega (arith, s.1.0), Sends-enqueue_send k h jobs s.1.0 s.1.1))
Sends-enqueue_send l h (erase k f ∷ jobs) le s = Sends-enqueue_send l h jobs le s

pub Sends-lower : (l m h : ℕ) (jobs : List Job) → m ≤ l → Sends l h jobs → Sends m h jobs
Sends-lower l m h [] le s = tt
Sends-lower l m h (send k ∷ jobs) le s = (omega (arith, s.0), s.1)
Sends-lower l m h (erase k f ∷ jobs) le s = Sends-lower l m h jobs le s

pub Sends-rest : (l h : ℕ) (job : Job) (jobs : List Job) → Sends l h (job ∷ jobs) → Sends l h jobs
Sends-rest l h (send g) jobs s = Sends-lower g l h jobs (omega (arith, s.0)) s.1.1
Sends-rest l h (erase g e) jobs s = s

-- What holds of the upload `i`: an upload that is live has had its last send.
pub record IsFine (names : Text → Option ℕ) (card : Card) (i : ℕ) (u : Upload) : Type 0 where
  pub held_below : low u.holder ≤ u.generation
  pub ascending : Sends (low u.holder) u.generation u.waiting
  pub held_listed : is_held u.holder ≡ true → names u.name ≡ some i
  pub last_sent :
      u.state ≡ live → Sends u.generation u.generation u.waiting × NoSend u.holder u.generation
  pub on_card :
      u.state ≡ live → u.holder ≡ none → names u.name ≡ some i → card u.name ≡ bytes i u.generation

pub record IsSound (s : Uploads) (card : Card) : Type 0 where
  pub named :
      (n : Text) (i : ℕ)
      → s.names n ≡ some i
      → (u : Upload) × ((get_elem? s.objects i ≡ some u) × (u.name ≡ n))
  pub fine : (i : ℕ) (u : Upload) → get_elem? s.objects i ≡ some u → IsFine s.names card i u
