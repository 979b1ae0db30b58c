-- ===== src/Wire/Events.antt =====
-- The events that `next_event` reads are those that were written.
use simple_serving.Prelude.{◌++◌, codes}
use simple_serving.Wire.{Bytes}

-- A data line of server-sent events, as vLLM writes it.
abbrev pub data_line : Bytes → Bytes
data_line text = codes "data: " ++ text
