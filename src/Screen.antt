-- ===== src/Screen.antt =====
-- HackerTyper.qml: `resolveScreen`. The screens and the focused monitor are the desktop's: a list, in
-- which an entry may be missing, and a name, which is empty where there is no monitor.
pub mod Choice
use omarchy_hackertyper.Base.{
  Bool, true, false, List, [], ◌∷◌, Option, none, some, if◌then◌else◌, Text, text_eq,
}
use omarchy_hackertyper.Lines.{is_empty}

pub record Screen : Type 0 where
  pub name : Text

abbrev pub is_named : Text → Option Screen → Bool
is_named wanted none = false
is_named wanted (some s) = text_eq s.name wanted

-- The loop, from an entry on; `none` where it ends.
unfoldable pub find_screen : Text → List (Option Screen) → Option Screen
find_screen wanted [] = none
find_screen wanted (s ∷ rest) =
    let later = find_screen wanted rest in if is_named wanted s then s else later

abbrev pub first_screen : List (Option Screen) → Option Screen
first_screen [] = none
first_screen (s ∷ rest) = s

unfoldable pub resolve_screen : Text → Text → List (Option Screen) → Option Screen
unfolding find_screen
resolve_screen requested focused screens =
    let wanted = if is_empty requested then focused else requested in
    elim (find_screen wanted screens) [ none ↦ first_screen screens | some s ↦ some s ]
