-- ===== src/Tool/Symbols/Stripped.antt =====
-- What `strip_non_code` makes of a line of tokens.
use hai_code.Base.{Bytes, List, ◌++◌}
use hai_code.Tool.Symbols.{Place}

-- Bytes in front of what is left of the rest.
abbrev before : Bytes → Bytes × Place → Bytes × Place
before out r = (out ++ r.0, r.1)
