-- ===== src/StringObject/Tests.antt =====
-- A string that is shared once.
use objective_9c.Prelude.{false, codes}
use objective_9c.Prelude.Int.{pos}
use objective_9c.StringObject.{StringObject}

abbrev made : StringObject
made = record { bytes = codes "ab"; cap = 32; ref = pos 1; freed = false }
