-- ===== src/Uploads/Examples.antt =====
-- An upload that is sent, and one that is sent again after its erasure.
use simple_serving.Prelude.{ℕ, ◌≡◌, refl, true, Text, codes}
use simple_serving.Errors.{Result, ok, err, queue_full, not_found}
use simple_serving.Uploads.{Uploads, init, put, erase_name, take, finish, owns, live_from}
use simple_serving.Uploads.Steps.{
  nothing, Card, card_after, Reach, started, putting, taking, ending,
}
use simple_serving.Uploads.Live.{IsOnCard, owns-IsOnCard}

abbrev alice : Text
alice = codes "reader.alice-0001"

abbrev a : Text
a = codes "a.png"

abbrev b : Text
b = codes "b.png"

-- The state that a result gives.
abbrev given : Uploads → Result (ℕ × Uploads) → Uploads
given s (ok r) = r.1
given s (err e) = s

abbrev after_erase : Uploads → Result Uploads → Uploads
after_erase s (ok t) = t
after_erase s (err e) = s

abbrev asked : Uploads
asked = given init (put 0 1 alice a init)

abbrev sent : Uploads
sent = finish 2 true 0 (take 1 0 asked)

abbrev card : Card
card = card_after true 0 (take 1 0 asked) (λ _. nothing)

reached : Reach sent card
unfolding init put simple_serving.Uploads.claim
reached = ending 2 0 true (taking 1 0 (putting 0 1 0 alice a started refl))

live_a : owns 3 alice sent a ≡ true
unfolding owns finish take put simple_serving.Uploads.claim init
live_a = refl

owns-IsOnCard_example : IsOnCard 3 alice a sent card
owns-IsOnCard_example = owns-IsOnCard sent card 3 alice a reached live_a

-- Another scope neither owns nor erases it.
not_bobs : erase_name (codes "reader.bob-0001") a sent ≡ err not_found
unfolding erase_name finish take put simple_serving.Uploads.claim init
not_bobs = refl

-- A second name is refused at the cap of one.
at_cap : put 3 1 alice b sent ≡ err queue_full
unfolding put simple_serving.Uploads.claim finish take init
at_cap = refl

-- After an erasure another name has the place, and the erased name may be sent again beside it: the
-- scope then has two uploads that are not erased, at a cap of one.
abbrev blanked : Uploads
blanked = finish 5 true 0 (take 4 0 (after_erase sent (erase_name alice a sent)))

abbrev both : Uploads
both = let other = given blanked (put 6 1 alice b blanked) in given other (put 7 1 alice a other)

past_cap : live_from both 8 alice 0 both.objects ≡ 2
unfolding put simple_serving.Uploads.claim finish take erase_name init
past_cap = refl
