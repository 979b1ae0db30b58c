-- ===== src/Uploads/Steps.antt =====
-- The runs of the uploads with the card, in any order of their jobs: what a name holds on the card is
-- kept beside the state. A write that fails leaves there what is not known. No job is cancelled while
-- it waits for the lock or has it.
use simple_serving.Prelude.{
  ℕ, ◌≡◌, text_eq, if◌then◌else◌, Bool, true, false, Option, none, some, Text, get_elem?,
}
use simple_serving.Errors.{ok}
use simple_serving.Uploads.{
  Job, send, erase, Upload, Uploads, init, put, erase_name, take, finish, ask_erase,
}

-- `bytes i g` are those of the PUT with generation `g` of the upload `i`.
pub data OnCard : Type 0 where
  nothing blank unknown : OnCard
  bytes : ℕ → ℕ → OnCard

abbrev pub Card : Type 0
Card = Text → OnCard

abbrev pub written : Bool → ℕ → Job → OnCard
written false i job = unknown
written true i (send generation) = bytes i generation
written true i (erase generation expired) = blank

abbrev pub put_card : Text → OnCard → Card → Card
put_card name value card other = if text_eq name other then value else card other

abbrev pub card_by : Bool → ℕ → Upload → Option Job → Card → Card
card_by done i u none card = card
card_by done i u (some job) card = put_card u.name (written done i job) card

abbrev pub card_at : Bool → ℕ → Option Upload → Card → Card
card_at done i none card = card
card_at done i (some u) card = card_by done i u u.holder card

-- What the job that has the lock leaves on the card.
unfoldable pub card_after : Bool → ℕ → Uploads → Card → Card
card_after done i s card = card_at done i (get_elem? s.objects i) card

pub data Reach : Uploads → Card → Type 0 where
  started : Reach init (λ _. nothing)
  putting :
      {s t : Uploads} {card : Card} (now cap i : ℕ) (scope name : Text)
      → Reach s card
      → put now cap scope name s ≡ ok (i, t)
      → Reach t card
  erasing :
      {s t : Uploads} {card : Card} (scope name : Text)
      → Reach s card
      → erase_name scope name s ≡ ok t
      → Reach t card
  asking :
      {s : Uploads} {card : Card} (i generation : ℕ) (expired : Bool)
      → Reach s card
      → Reach (ask_erase i generation expired s) card
  taking : {s : Uploads} {card : Card} (now i : ℕ) → Reach s card → Reach (take now i s) card
  ending :
      {s : Uploads} {card : Card} (now i : ℕ) (done : Bool)
      → Reach s card
      → Reach (finish now done i s) (card_after done i s card)
