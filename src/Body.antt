-- ===== src/Body.antt =====
-- simple_serving/asgi.py: `Exchange.read_body`, from the messages that the server gives. `unfinished`
-- is a body that is still awaited.
pub mod Bounds
mod Examples
use simple_serving.Prelude.{
  ℕ, ◌+◌, Bool, true, false, ◌&&◌, not, List, [], ◌∷◌, ◌++◌, Text, text_eq, all_of, ltb, length,
  if◌then◌else◌,
}
use simple_serving.Shown.{is_digit, number_of}

-- `http.request` with its body, and whether more is to come; or `http.disconnect`.
pub data Incoming : Type 0 where
  chunk : List ℕ → Bool → Incoming
  disconnect : Incoming

pub data Body : Type 0 where
  whole_body : List ℕ → Body
  too_large client_gone unfinished : Body

-- The loop, with what has been read.
unfoldable pub read_loop : ℕ → List Incoming → List ℕ → Body
read_loop limit [] before = unfinished
read_loop limit (disconnect ∷ rest) before = client_gone
read_loop limit (chunk bytes more ∷ rest) before =
    let now = before ++ bytes in
    let later = read_loop limit rest now in
    if ltb limit (length now) then too_large else if more then later else whole_body now

abbrev pub says_too_much : ℕ → Text → Bool
says_too_much limit said =
    not (text_eq said []) && all_of is_digit said && ltb limit (number_of 0 said)

-- `read_body`, with the header `content-length`, empty where it is missing.
unfoldable pub read_body : ℕ → Text → List Incoming → Body
read_body limit said messages =
    if says_too_much limit said then too_large else read_loop limit messages []
