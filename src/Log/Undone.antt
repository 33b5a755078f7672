-- ===== src/Log/Undone.antt =====
-- A log record that `send` gives up, behind its header, its arguments or its attributes.
use selenge_muren.Prelude.{Bool, true, false, Option, none, some, List}
use selenge_muren.Writer.{Buffer, Writer}
use selenge_muren.Writer.Rollback.{Restored}
use selenge_muren.Registry.{Attr}

-- What is left of a record that was not written: the writer as it was before its header.
abbrev pub Undone : Writer → Buffer → Option (Bool × List Attr × Writer) → Type 0
Undone w b none = ⊥
Undone w b (some (true, cache, v)) = Unit
Undone w b (some (false, cache, v)) = Restored w b w.used v
