-- ===== src/Uploads.antt =====
-- simple_serving/pictures/uploads.py: `Upload` and `Uploads`. The uploads are objects in a store,
-- known by their position; the dictionary of names gives positions, and its values are the objects
-- that it gives. A time is the event loop's, in any unit of which `TTL_S` is 600. What runs between
-- two awaits is one function: a `_send` or an `_erase` waits for the lock of its upload in the order
-- of arrival, is taken (`take`), writes to the card, and ends (`finish`).
pub mod Steps
pub mod Invariant
pub mod Writes
pub mod Jobs
pub mod Kept
pub mod Ends
pub mod Live
mod Examples
use simple_serving.Prelude.{
  ℕ, suc, ◌+◌, ◌==◌, leb, ltb, Bool, true, false, ◌&&◌, ◌||◌, not, Option, none, some, List, [],
  ◌∷◌, ◌++◌, Text, text_eq, codes, length, get_elem?, set, one_if, if◌then◌else◌,
}
use simple_serving.Errors.{Result, ok, err, ◌>>=◌, not_found, queue_full}

pub data UploadState : Type 0 where
  sending live stale erased : UploadState

-- Who waits for the lock of an upload or holds it, with the generation of its PUT: `_send`, or
-- `_erase`, and whether the sweep calls it.
pub data Job : Type 0 where
  send : ℕ → Job
  erase : ℕ → Bool → Job

pub record Upload : Type 0 where
  pub name : Text
  pub scope : Text
  pub expires : ℕ
  pub state : UploadState
  pub generation : ℕ
  pub holder : Option Job
  pub waiting : List Job

pub record Uploads : Type 0 where
  pub objects : List Upload
  pub names : Text → Option ℕ

abbrev pub ttl_s : ℕ
ttl_s = 600

unfoldable pub init : Uploads
init = record { objects = []; names = λ _. none }

abbrev pub is_held : Option Job → Bool
is_held none = false
is_held (some job) = true

abbrev pub is_number : Option ℕ → ℕ → Bool
is_number none i = false
is_number (some j) i = j == i

-- Whether the dictionary gives the object.
abbrev pub is_listed : Uploads → ℕ → Upload → Bool
is_listed s i u = is_number (s.names u.name) i

abbrev pub is_live : UploadState → Bool
is_live live = true
is_live sending = false
is_live stale = false
is_live erased = false

abbrev pub is_erased : UploadState → Bool
is_erased erased = true
is_erased sending = false
is_erased live = false
is_erased stale = false

abbrev pub owned_now : ℕ → Text → Option Upload → Bool
owned_now now scope none = false
owned_now now scope (some u) = text_eq u.scope scope && is_live u.state && ltb now u.expires

abbrev pub object_at : Uploads → Option ℕ → Option Upload
object_at s none = none
object_at s (some i) = get_elem? s.objects i

-- `owner`
unfoldable pub owns : ℕ → Text → Uploads → Text → Bool
owns now scope s name = owned_now now scope (object_at s (s.names name))

-- The uploads of a scope that are not erased and not over their time, of those from `i` on.
abbrev pub live_from : Uploads → ℕ → Text → ℕ → List Upload → ℕ
live_from s now scope i [] = 0
live_from s now scope i (u ∷ us) =
    one_if
      (is_listed s i u && text_eq u.scope scope && not (is_erased u.state) && ltb now u.expires)
    + live_from s now scope (suc i) us

abbrev pub put_name : Text → Option ℕ → (Text → Option ℕ) → Text → Option ℕ
put_name name value names other = if text_eq name other then value else names other

-- `Upload(...)`, under its name.
abbrev pub fresh : ℕ → Text → Text → Uploads → Uploads
fresh now scope name s = record {
  objects =
      s.objects
      ++ record {
        name = name;
        scope = scope;
        expires = now + ttl_s;
        state = sending;
        generation = 0;
        holder = none;
        waiting = [];
      }
        ∷ [];
  names = put_name name (some (length s.objects)) s.names;
}

abbrev pub claim_new : ℕ → ℕ → Text → Text → Uploads → Result (ℕ × Uploads)
claim_new now cap scope name s =
    if leb cap (live_from s now scope 0 s.objects)
    then err queue_full
    else ok (length s.objects, fresh now scope name s)

-- `del self._uploads[name]`
abbrev pub forget : Text → Uploads → Uploads
forget name s = record s { names = put_name name none s.names }

abbrev pub write : ℕ → Upload → Uploads → Uploads
write i u s = record s { objects = set s.objects i u }

abbrev pub claim_known : ℕ → ℕ → Text → Text → ℕ → Upload → Uploads → Result (ℕ × Uploads)
claim_known now cap scope name i u s =
    if leb u.expires now && not (is_held u.holder)
    then claim_new now cap scope name (forget name s)
    else if text_eq u.scope scope
    then ok (i, write i (record u { expires = now + ttl_s }) s)
    else err not_found

abbrev pub claim_at :
    ℕ → ℕ → Text → Text → Option ℕ → Option Upload → Uploads → Result (ℕ × Uploads)
claim_at now cap scope name (some i) (some u) s = claim_known now cap scope name i u s
claim_at now cap scope name _ _ s = claim_new now cap scope name s

-- `_claim`, for a scope whose class has `cap` uploads.
unfoldable pub claim : ℕ → ℕ → Text → Text → Uploads → Result (ℕ × Uploads)
claim now cap scope name s =
    claim_at now cap scope name (s.names name) (object_at s (s.names name)) s

-- A job that asks for the lock.
abbrev pub enqueue : Job → Upload → Upload
enqueue job u = record u { waiting = u.waiting ++ job ∷ [] }

-- The upload of a PUT: its new generation, and its `_send`.
abbrev pub begin_send : Upload → Upload
begin_send u =
    enqueue (send (suc u.generation)) (record u { generation = suc u.generation; state = sending })

abbrev pub change : ℕ → (Upload → Upload) → Option Upload → Uploads → Uploads
change i f none s = s
change i f (some u) s = write i (f u) s

-- `put` up to its first await.
unfoldable pub put : ℕ → ℕ → Text → Text → Uploads → Result (ℕ × Uploads)
put now cap scope name s = claim now cap scope name s >>= λ r.
    ok (r.0, change r.0 begin_send (get_elem? r.1.objects r.0) r.1)

abbrev pub erase_own : Text → ℕ → Option Upload → Uploads → Result Uploads
erase_own scope i none s = err not_found
erase_own scope i (some u) s =
    if text_eq u.scope scope
    then ok (write i (enqueue (erase u.generation false) u) s)
    else err not_found

abbrev pub erase_at : Text → Option ℕ → Uploads → Result Uploads
erase_at scope none s = err not_found
erase_at scope (some i) s = erase_own scope i (get_elem? s.objects i) s

-- `erase` up to the lock.
unfoldable pub erase_name : Text → Text → Uploads → Result Uploads
erase_name scope name s = erase_at scope (s.names name) s

-- `_current`
abbrev pub is_current : Uploads → ℕ → Upload → ℕ → Bool
is_current s i u generation = is_listed s i u && u.generation == generation

-- `sweep` after an erasure: the name is forgotten if its time is still over.
abbrev pub after_sweep : Bool → ℕ → ℕ → ℕ → Upload → Uploads → Uploads
after_sweep expired now generation i u s =
    if expired && is_current s i u generation && leb u.expires now then forget u.name s else s

-- A job that has the lock until its first await, or to its end where it has none.
abbrev pub begin : ℕ → ℕ → Job → Upload → Uploads → Uploads
begin now i (send generation) u s =
    if is_listed s i u
    then write i (record u { holder = some (send generation) }) s
    else write i u s
begin now i (erase generation expired) u s =
    if not (is_current s i u generation) || (expired && ltb now u.expires) || is_erased u.state
    then after_sweep expired now generation i u (write i u s)
    else write i (record u { holder = some (erase generation expired) }) s

abbrev pub take_first : ℕ → ℕ → Upload → List Job → Uploads → Uploads
take_first now i u [] s = s
take_first now i u (job ∷ rest) s = begin now i job (record u { waiting = rest }) s

abbrev pub take_lock : ℕ → ℕ → Option Upload → Uploads → Uploads
take_lock now i none s = s
take_lock now i (some u) s = if is_held u.holder then s else take_first now i u u.waiting s

-- The free lock of an upload goes to the first that waits.
unfoldable pub take : ℕ → ℕ → Uploads → Uploads
take now i s = take_lock now i (get_elem? s.objects i) s

abbrev pub set_if : Bool → UploadState → Upload → Upload
set_if current next u =
    if current then record u { state = next; holder = none } else record u { holder = none }

abbrev pub end_job : ℕ → Bool → ℕ → Upload → Option Job → Uploads → Uploads
end_job now done i u none s = s
end_job now done i u (some (send generation)) s =
    write i (set_if (is_current s i u generation) (if done then live else stale) u) s
end_job now done i u (some (erase generation expired)) s =
    after_sweep expired now generation i u
      (write i (set_if (is_current s i u generation) (if done then erased else stale) u) s)

abbrev pub finish_at : ℕ → Bool → ℕ → Option Upload → Uploads → Uploads
finish_at now done i none s = s
finish_at now done i (some u) s = end_job now done i u u.holder s

-- The write to the card of the one that has the lock has ended, well or with a `ComfyError`.
unfoldable pub finish : ℕ → Bool → ℕ → Uploads → Uploads
finish now done i s = finish_at now done i (get_elem? s.objects i) s

-- `_erase_after` and `sweep`, when they ask for the lock.
unfoldable pub ask_erase : ℕ → ℕ → Bool → Uploads → Uploads
ask_erase i generation expired s =
    change i (enqueue (erase generation expired)) (get_elem? s.objects i) s
