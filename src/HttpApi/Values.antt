-- ===== src/HttpApi/Values.antt =====
-- The query values of internal/httpapi/httpapi.go. A Go map is the list of its entries, in the order
-- in which `range` visits them.
use anilibria_torznab.Prelude.{Option, none, some, List, [], ◌∷◌, ◌++◌, if◌then◌else◌}
use anilibria_torznab.Text.{Bytes, same}

abbrev pub Values : Type 0
Values = List (Bytes × List Bytes)

-- `values[name]`: no entries where the key is missing
abbrev pub entries : Bytes → Values → List Bytes
entries name [] = []
entries name ((k, v) ∷ rest) = let others = entries name rest in if same k name then v else others

-- `result[name] = append(result[name], more...)`
abbrev pub append_to : Bytes → List Bytes → Values → Values
append_to name more [] = (name, more) ∷ []
append_to name more ((k, v) ∷ rest) =
    let others = append_to name more rest in
    if same k name then (k, v ++ more) ∷ rest else (k, v) ∷ others

-- `single` and `singlePointer`
unfoldable pub single : Values → Bytes → Option Bytes
single values name = first (entries name values)
  where
    first : List Bytes → Option Bytes
    first [] = none
    first (x ∷ xs) = some x
