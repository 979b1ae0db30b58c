-- ===== src/Lib.antt =====
-- Verification of the gateway of simple-serving, which stands between keys and one inference engine.
--
-- The gateway serves two lanes. The text lane takes a chat request, resolves its key, class and cache
-- scope, checks it against the class's limits, accepts it as work, counts its prompt at the engine in
-- a count place, takes a generation place, and relays the engine's stream. A lifecycle around all of
-- this drains, sleeps and watches the engine. The picture lane shares the lifecycle and the policy.
--
-- Which file models what (paths from the repository's root):
--   * Errors: simple_serving/errors.py, the codes, and `Result` for code that may raise ServiceError.
--   * Config, Samples: the records and class tables of simple_serving/config.py; a small instance.
--   * ConfigValues, ConfigKeys, ConfigFile: the reading of the configuration file in the same file:
--     its single values, its keys, and `load` with `_config`. PictureFile: the same of
--     simple_serving/pictures/config.py.
--   * Line: `Ticket`, `Line` and `_grant` of simple_serving/admission.py. Tickets stand on a heap, a
--     reference is a position, so that an alias of a ticket sees what happens to it.
--   * Admission: `Admission` (`enter`, `leave`, `_dispatch`, `_has_room`, `_activate`).
--   * CountPlaces: `CountPlaces` of the same file.
--   * Policy: simple_serving/policy.py (`find_key`, `resolve`, `Caller`).
--   * Work: the stop of accepted work in simple_serving/inference.py. Inference: `Count` and `Generation`
--     of the same file, from the start of their task by `_run` to `cleanup`, over the one `Admission`
--     and the one `CountPlaces` that all works share. A task is a phase, the await it stands at;
--     Inference.Steps resumes tasks, stops works and lets requests arrive in any order. What the engine
--     answers comes with the event; the relay is one turn, whose steps are in Relay.
--   * Lifecycle: `Lifecycle` of simple_serving/service.py. Its operations are functions of the state
--     and of the event loop's time; histories are an indexed data type of steps.
--   * TextLane: `Service` of the same file, with the checks in the order of simple_serving/routes.py.
--   * Json, Delta, Stream: simple_serving/stream.py, which rebuilds the engine's stream. A dictionary
--     read from JSON is its fields, a finite float a fraction.
--   * Wire: the server-sent events of simple_serving/engine.py, from the chunks of a body to lines and
--     events.
--   * Relay: `Generation._relay` of simple_serving/inference.py, without its measurements.
--   * Control: the bodies of the control routes, of simple_serving/validation.py. Shape, Depth,
--     DataUrl, Messages, Sampling, Chat: those of generations and counts in the same file: unknown
--     fields by shape, the depth, pictures, messages, the optional fields, and `check_chat`.
--   * Body: `read_body` of simple_serving/asgi.py. `received` of TextLane reads the body, parses, checks
--     and prepares it, as `_inference` of simple_serving/routes.py does.
--   * Engine: the payloads of simple_serving/engine.py, and what it reads of the engine's answers.
--     They are made of what `check_chat` gives, whose result the text lane takes.
--   * Png, Graphs, Shown: simple_serving/pictures/graphs.py: `strip_png` on lists of bytes, the check
--     of a graph with `with_nonce`, and the pictures that a record names. What a graph may name is
--     asked of Uploads.
--   * Uploads: simple_serving/pictures/uploads.py. The uploads are objects in a store; each `_send` and
--     each erasure waits for the lock of its upload, gets it, and ends, as steps in any order; what the
--     card holds under a name is kept beside the state.
--   * Prelude: the names and lemmas that these files share.
-- In each tree the parent holds the definitions, the children hold the lemmas, and Examples holds the
-- tests.
--
-- Loops: `_dispatch` and the loop of `CountPlaces.leave` run on fuel, one more than the tickets in
-- line, since every round takes one ticket out of it. `strip_png` runs on one more than the bytes,
-- since every round takes at least twelve. The relay and the reading of lines are recursion on what
-- the engine sends. `_depth` runs on one more than the values in the body, of which each round takes
-- one. The works of Inference need no fuel: their turns are counted by their phase.
--
-- Numbers are natural numbers, as Python's integers do not overflow; times are numbers of one fixed
-- unit, where the source has floats. `none` and `internal_error` stand for exceptions that no caller
-- expects.
--
-- Not modelled: libraries, which are parameters: SHA-256 (of `find_key`), the HMAC of a cache salt
-- (of `payload`), `json.loads` and `json.load`, `urlsplit` and `ip_address` (of the configuration),
-- the base64 decoder (of `check_chat`), the HTTP client's answers (of Engine). Left out are the web
-- framework, sockets, logs and metrics, the timers that stop a work and the send of its terminal
-- message, the messages of a `ConfigError`, the configurations that tests build without a file, the
-- answer to the PUT of an upload and the cancellation of a request for it, the state machine of
-- picture jobs, and the tools that build, measure and test an instance.
mod Prelude
pub mod Errors
pub mod Config
pub mod Line
pub mod Admission
pub mod CountPlaces
pub mod Policy
pub mod Work
pub mod Lifecycle
pub mod Png
pub mod Graphs
pub mod Shown
pub mod Uploads
pub mod PictureFile
pub mod Json
pub mod Wire
pub mod Control
pub mod ConfigValues
pub mod ConfigKeys
pub mod ConfigFile
pub mod Shape
pub mod Depth
pub mod DataUrl
pub mod Messages
pub mod Sampling
pub mod Chat
pub mod Delta
pub mod Stream
pub mod Inference
pub mod Relay
pub mod Body
pub mod Engine
pub mod TextLane
pub mod Samples
