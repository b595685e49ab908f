-- ===== src/DirectUrl/Json.antt =====
-- The values that `json.loads` makes, and the methods of a `dict` of them that are called.
use core_pip.Prelude.{Bool, Option, none, some, Text, text_ord, ◌=?◌, if◌then◌else◌}

-- A number is kept in its spelling.
mutual
  pub data Json : Type 0 where
    null : Json
    boolean : Bool → Json
    number : Text → Json
    string : Text → Json
    array : JsonItems → Json
    object : JsonDict → Json

  pub data JsonItems : Type 0 where
    no_items : JsonItems
    item : Json → JsonItems → JsonItems

  pub data JsonDict : Type 0 where
    no_entries : JsonDict
    entry : Text → Json → JsonDict → JsonDict

-- `data.get(key)`
abbrev pub get : Text → JsonDict → Option Json
get key no_entries = none
get key (entry k v d) = let rest = get key d in if key =? k then some v else rest

-- `data.get(key)` where what follows tests for `None`, which `null` becomes too
abbrev pub given : Option Json → Option Json
given (some null) = none
given o = o

-- `data[key] = value`
abbrev pub set : Text → Json → JsonDict → JsonDict
set key value no_entries = entry key value no_entries
set key value (entry k v d) =
    let rest = set key value d in if key =? k then entry k value d else entry k v rest

-- `del data[key]` of a key that is there
abbrev pub del : Text → JsonDict → JsonDict
del key no_entries = no_entries
del key (entry k v d) = let rest = del key d in if key =? k then d else entry k v rest
