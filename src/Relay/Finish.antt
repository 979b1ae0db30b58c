-- ===== src/Relay/Finish.antt =====
-- The finish of a relay: one chunk has it, and that chunk is the last.
use simple_serving.Prelude.{
  append_nil_lem, ℕ, ◌≡◌, refl, sym, subst, ◌⊎◌, inl, inr, Option, none, some, List, [], Text,
  codes,
}
use simple_serving.Errors.{Code, Result, ok, err, engine_unavailable, ok_ne_err}
use simple_serving.Json.{Json, get}
use simple_serving.Stream.{Usage, FinishReason, Chunk, Translator, init, chunks, end_of}
use simple_serving.Stream.Finish.{
  IsOpen, IsFinished, IsOpen-append, IsFinished-append, Sent, Step, chunks-Step,
}
use simple_serving.Relay.{Feed, closed, broken, event, send, relay_loop, begin, relay}

-- What is sent from a state on, when the stream ends well and when it fails.
abbrev Onward : Option FinishReason → List Chunk × Result Usage → Type 0
Onward (some r) (cs, u) = cs ≡ []
Onward none (cs, ok u) = (r : FinishReason) × IsFinished r cs
Onward none (cs, err e) = IsOpen cs ⊎ ((r : FinishReason) × IsFinished r cs)

send-Onward :
    (before after : Option FinishReason) (cs : List Chunk) (rest : List Chunk × Result Usage)
    → Sent before after cs
    → Onward after rest
    → Onward before (send (ok cs) rest)
send-Onward none none cs (ds, ok u) h k = (k.0, IsFinished-append k.0 cs ds h k.1)
send-Onward none none cs (ds, err e) h (inl k) = inl (IsOpen-append cs ds h k)
send-Onward none none cs (ds, err e) h (inr k) = inr (k.0, IsFinished-append k.0 cs ds h k.1)
send-Onward none (some r) cs (ds, ok u) h k = (r, rw (k, append_nil_lem cs) h)
send-Onward none (some r) cs (ds, err e) h k = inr (r, rw (k, append_nil_lem cs) h)
send-Onward (some r) after cs rest h k = rw h.0 (subst (λ o. Onward o rest) h.1 k)

failed_Onward : (o : Option FinishReason) (e : Code) → Onward o ([], err e)
failed_Onward none e = inl tt
failed_Onward (some r) e = refl

Step-Onward :
    (o : Option FinishReason) (out : Translator × Result (List Chunk))
    (rest : List Chunk × Result Usage)
    → Step o out
    → Onward out.0.finish_reason rest
    → Onward o (send out.1 rest)
Step-Onward o (t, ok cs) rest h k = send-Onward o t.finish_reason cs rest h k
Step-Onward o (t, err e) rest h k = failed_Onward o e

end-Onward :
    (o : Option FinishReason) (t : Translator) → t.finish_reason ≡ o → Onward o ([], end_of t)
unfolding end_of
end-Onward none t e = rw e (inl tt)
end-Onward (some r) t e = refl

relay_loop-Onward : (feed : Feed) (t : Translator) → Onward t.finish_reason (relay_loop feed t)
unfolding relay_loop
relay_loop-Onward closed t = end-Onward t.finish_reason t refl
relay_loop-Onward broken t = failed_Onward t.finish_reason engine_unavailable
relay_loop-Onward (event e feed) t =
    Step-Onward t.finish_reason (chunks e t) (relay_loop feed (chunks e t).0) (chunks-Step e t)
      (relay_loop-Onward feed (chunks e t).0)

begin-Onward :
    (o : Option Json) (r : Result (List Chunk)) (all : List Chunk × Result Usage)
    → Onward none all
    → Onward none (begin o r all).1
begin-Onward none (ok cs) all h = h
begin-Onward none (err c) all h = inl tt
begin-Onward (some e) r all h = inl tt

relay-Onward :
    (feed : Feed) (t : Translator) → t.finish_reason ≡ none → Onward none (relay feed t).1
unfolding relay
relay-Onward closed t h = inl tt
relay-Onward broken t h = inl tt
relay-Onward (event e feed) t h =
    begin-Onward (get (codes "error") e) (chunks e t).1 (relay_loop (event e feed) t)
      (subst (λ o. Onward o (relay_loop (event e feed) t)) h (relay_loop-Onward (event e feed) t))

finished :
    (all : List Chunk × Result Usage) (u : Usage)
    → Onward none all
    → all.1 ≡ ok u
    → (r : FinishReason) × IsFinished r all.0
finished (cs, ok v) u h k = h
finished (cs, err e) u h k = absurd (ok_ne_err (sym k))

at_most_one :
    (all : List Chunk × Result Usage)
    → Onward none all
    → IsOpen all.0 ⊎ ((r : FinishReason) × IsFinished r all.0)
at_most_one (cs, ok v) h = inr h
at_most_one (cs, err e) h = h

-- A relay that ends well from a new translator, of any events the engine sends: one chunk of those
-- sent has a finish, and it is the last.
pub relay_finishes :
    (feed : Feed) (id : Text) (created : ℕ) (alias : Text) (u : Usage)
    → (relay feed (init id created alias)).1.1 ≡ ok u
    → (r : FinishReason) × IsFinished r (relay feed (init id created alias)).1.0
unfolding init
relay_finishes feed id created alias u h =
    finished (relay feed (init id created alias)).1 u
      (relay-Onward feed (init id created alias) refl) h

-- A relay from a new translator, however it ends and of any events the engine sends: no chunk that
-- is sent has a finish, or the last one alone has.
pub relay_one_finish :
    (feed : Feed) (id : Text) (created : ℕ) (alias : Text)
    → IsOpen (relay feed (init id created alias)).1.0
      ⊎ ((r : FinishReason) × IsFinished r (relay feed (init id created alias)).1.0)
unfolding init
relay_one_finish feed id created alias =
    at_most_one (relay feed (init id created alias)).1
      (relay-Onward feed (init id created alias) refl)
