-- ===== src/Samples.antt =====
-- A small configuration and keys for tests.
use simple_serving.Prelude.{true, false, none, some, [], ◌∷◌, codes}
use simple_serving.Json.{pos, whole, end}
use simple_serving.Config.{
  ServiceClass, reader, agent, internal, external, Key, ClassLimits, Config,
}

abbrev pub bot_key : Key
bot_key = record {
  digest = 17;
  label = codes "bot";
  classes = reader ∷ agent ∷ internal ∷ [];
  default = some reader;
  scopes = true;
  control = false;
  metrics = false;
  vision = false;
}

abbrev pub partner_key : Key
partner_key = record {
  digest = 29;
  label = codes "partner";
  classes = external ∷ [];
  default = some external;
  scopes = false;
  control = false;
  metrics = false;
  vision = false;
}

abbrev pub small_limits : ServiceClass → ClassLimits
small_limits external = record {
  active = 1;
  waiting = 1;
  input_tokens = some 100;
  max_tokens = 50;
  wall_s = whole (pos 120);
}
small_limits reader = record {
  active = 1;
  waiting = 2;
  input_tokens = none;
  max_tokens = 80;
  wall_s = whole (pos 300);
}
small_limits agent = record {
  active = 1;
  waiting = 2;
  input_tokens = none;
  max_tokens = 80;
  wall_s = whole (pos 900);
}
small_limits internal = record {
  active = 1;
  waiting = 2;
  input_tokens = none;
  max_tokens = 80;
  wall_s = whole (pos 900);
}

-- One place for readers, one shared place, one count place.
abbrev pub small : Config
small = record {
  alias = codes "m";
  engine_url = codes "http://127.0.0.1:8000";
  body_limit_bytes = 4194304;
  engine_priority = λ _. pos 0;
  public = record { host = codes "127.0.0.1"; port = 0 };
  control = record { host = codes "127.0.0.1"; port = 0 };
  max_connections = 64;
  versions = end;
  context_tokens = some 200;
  keys = bot_key ∷ partner_key ∷ [];
  limits = small_limits;
  per_key_active = 1;
  per_key_waiting = 1;
  shared_places = 1;
  count_active = 1;
  count_per_outside_key = 1;
  drain_deadline_s = whole (pos 60);
  idle_timeout_s = whole (pos 780);
  health_interval_s = whole (pos 5);
  speculative = true;
  thinking_budget = true;
  vision = false;
  warm_up = false;
  min_p_while_drafting = false;
}
