-- ===== src/History/Selection.antt =====
-- The runs that are picked for a comparison: `toggleSelect` of frontend/src/app/history/page.tsx.
pub mod Laws
mod Tests
use Prim.Native.String.{◌++◌ as append}
use htn.Prelude.{
  String, not, Option, none, some, List, [], ◌∷◌, ◌++◌, filter, contains, string_eq, ◌==◌,
  if◌then◌else◌,
}

-- A new pick: the older of two gives way.
unfoldable pub pick : String → List String → List String
pick id (a ∷ b ∷ rest) = b ∷ id ∷ []
pick id prev = prev ++ id ∷ []

unfoldable pub toggle_select : String → List String → List String
unfolding contains pick
toggle_select id prev = if contains id prev then filter (λ x. not (x == id)) prev else pick id prev

-- The link to the comparison, once two are picked.
unfoldable pub compare_link : List String → Option String
compare_link (a ∷ b ∷ []) = some (append "/history/compare?a=" (append a (append "&b=" b)))
compare_link _ = none
