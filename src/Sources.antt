-- ===== src/Sources.antt =====
-- HackerTyperModel.js: `sourceById`, over the entries of SourceCatalog.js. An `id` of `undefined`
-- or `null` is the empty text, as `String(id || "")` makes it.
pub mod Choice
use omarchy_hackertyper.Base.{List, [], ◌∷◌, Option, none, some, if◌then◌else◌, Text, text_eq}

pub record Source : Type 0 where
  pub id : Text
  pub name : Text
  pub language : Text
  pub description : Text
  pub file : Text
  pub license : Text
  pub provenance : Text

-- The `for` loop, from an entry on; `none` where it ends without a `return`.
unfoldable pub find_source : List Source → Text → Option Source
find_source [] requested = none
find_source (s ∷ rest) requested =
    let later = find_source rest requested in if text_eq s.id requested then some s else later

-- `list.length > 0 ? list[0] : null`
abbrev pub first_source : List Source → Option Source
first_source [] = none
first_source (s ∷ rest) = some s

unfoldable pub source_by_id : List Source → Text → Option Source
unfolding find_source
source_by_id list requested = elim (find_source list requested) [
  | none ↦ first_source list
  | some s ↦ some s
]
