-- ===== src/Prelude/Texts.antt =====
-- Texts one after another, under a name of its own beside that of lists.
use Prim.Native.String.{String, ◌++◌}

abbrev pub concat : String → String → String
concat a b = a ++ b
