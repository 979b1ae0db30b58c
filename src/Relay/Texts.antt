-- ===== src/Relay/Texts.antt =====
-- The text that a relay passes on.
use simple_serving.Prelude.{
  append_assoc_lem, ◌≡◌, refl, ap, sym, ◌∙◌, Option, none, some, List, [], ◌∷◌, ◌++◌, Text, codes,
}
use simple_serving.Errors.{Result, ok, err, ok_ne_err}
use simple_serving.Json.{Json, Fields, get}
use simple_serving.Delta.{Part, present, all_parts}
use simple_serving.Delta.Texts.{
  content_in, reasoning_in, in_parts, content_said, reasoning_said, content_in-said,
  reasoning_in-said,
}
use simple_serving.Stream.{Usage, Chunk, Translator, chunks}
use simple_serving.Stream.Texts.{in_delta, in_chunks, in_event, Passed, chunks-Passed}
use simple_serving.Relay.{Feed, closed, broken, event, send, relay_loop, begin, relay}

abbrev pub in_feed : (Fields → Text) → Feed → Text
in_feed of closed = []
in_feed of broken = []
in_feed of (event e feed) = in_event of e ++ in_feed of feed

in_chunks-append :
    (pick : Part → Text) (cs ds : List Chunk)
    → in_chunks pick (cs ++ ds) ≡ in_chunks pick cs ++ in_chunks pick ds
in_chunks-append pick [] ds = refl
in_chunks-append pick (c ∷ cs) ds =
    ap (◌++◌ (in_delta pick c.delta)) (in_chunks-append pick cs ds)
    ∙ sym (append_assoc_lem (in_delta pick c.delta) (in_chunks pick cs) (in_chunks pick ds))

send-text :
    (pick : Part → Text) (t : Translator) (r : Result (List Chunk))
    (rest : List Chunk × Result Usage) (v w : Text) (u : Usage)
    → Passed pick v (t, r)
    → (rest.1 ≡ ok u → in_chunks pick rest.0 ≡ w)
    → (send r rest).1 ≡ ok u
    → in_chunks pick (send r rest).0 ≡ v ++ w
send-text pick t (ok cs) rest v w u p k h = rw (in_chunks-append pick cs rest.0, p, k h) refl
send-text pick t (err c) rest v w u p k h = absurd (ok_ne_err (sym h))

begin-text :
    (pick : Part → Text) (o : Option Json) (r : Result (List Chunk))
    (all : List Chunk × Result Usage) (w : Text) (u : Usage)
    → (all.1 ≡ ok u → in_chunks pick all.0 ≡ w)
    → (begin o r all).1.1 ≡ ok u
    → in_chunks pick (begin o r all).1.0 ≡ w
begin-text pick none (ok cs) all w u k h = k h
begin-text pick none (err c) all w u k h = absurd (ok_ne_err (sym h))
begin-text pick (some e) r all w u k h = absurd (ok_ne_err (sym h))

module _ (pick : Part → Text) (of : Fields → Text)
    (agrees : (delta : Fields) → in_parts pick (all_parts (present delta)) ≡ of delta) where
  -- What the loop sends when it ends well is the text of the events.
  pub relay_loop-text :
      (feed : Feed) (t : Translator) (u : Usage)
      → (relay_loop feed t).1 ≡ ok u
      → in_chunks pick (relay_loop feed t).0 ≡ in_feed of feed
  unfolding relay_loop
  relay_loop-text closed t u h = refl
  relay_loop-text broken t u h = refl
  relay_loop-text (event e feed) t u h =
      let out = chunks e t in
      let rest = relay_loop feed out.0 in
      send-text pick out.0 out.1 rest (in_event of e) (in_feed of feed) u
        (chunks-Passed pick of agrees e t) (relay_loop-text feed out.0 u) h

  pub relay-text :
      (feed : Feed) (t : Translator) (u : Usage)
      → (relay feed t).1.1 ≡ ok u
      → in_chunks pick (relay feed t).1.0 ≡ in_feed of feed
  unfolding relay
  relay-text closed t u h = refl
  relay-text broken t u h = refl
  relay-text (event e feed) t u h =
      begin-text pick (get (codes "error") e) (chunks e t).1 (relay_loop (event e feed) t)
        (in_feed of (event e feed)) u (relay_loop-text (event e feed) t u) h

-- A relay that ends well, of any events the engine sends: the content of the chunks sent, in their
-- order, is the text of the field `content` of the events' deltas, and their reasoning is that of the
-- field `reasoning_content`, or of `reasoning` where that one is null or left out.
pub relay_keeps_text :
    (feed : Feed) (t : Translator) (u : Usage)
    → (relay feed t).1.1 ≡ ok u
    → (in_chunks content_in (relay feed t).1.0 ≡ in_feed content_said feed)
      × (in_chunks reasoning_in (relay feed t).1.0 ≡ in_feed reasoning_said feed)
relay_keeps_text feed t u h = (
  relay-text content_in content_said content_in-said feed t u h,
  relay-text reasoning_in reasoning_said reasoning_in-said feed t u h,
)
