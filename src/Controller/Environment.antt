-- ===== src/Controller/Environment.antt =====
-- `environment` of src/scord-ctl/command.cpp.
use io_scheduler.Prelude.{ℕ, none, some, List, [], ◌∷◌, ◌++◌, map, length}
use io_scheduler.Prelude.Map.{Map, find, assign}
use io_scheduler.Prelude.Text.{text_key}
use io_scheduler.Types.{Bytes}

abbrev pub Environment : Type 0
Environment = Map Bytes Bytes

unfoldable pub set : Bytes → Bytes → Environment → Environment
unfolding assign
set key value env = assign key value env

-- An unset variable is the empty text.
unfoldable pub get : Bytes → Environment → Bytes
unfolding find
get key env = elim (find key env) [ none ↦ [] | some value ↦ value ]

abbrev pub entry : Bytes × Bytes → Bytes
entry (key, value) = key ++ b'=' ∷ value

unfoldable pub as_vector : Environment → List Bytes
as_vector env = map entry env

unfoldable pub size : Environment → ℕ
size env = length env
