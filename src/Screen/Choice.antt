-- ===== src/Screen/Choice.antt =====
-- Which screen is resolved.
use omarchy_hackertyper.Base.{
  true, not, List, [], ◌∷◌, Option, none, some, Option-cases, if◌then◌else◌, Text, text_eq_iff, all,
  ◌≡◌, ◌⊎◌, refl, inl, inr, arith,
}
use omarchy_hackertyper.Lines.{is_empty}
use omarchy_hackertyper.Screen.{Screen, is_named, find_screen, first_screen, resolve_screen}

-- The name that is looked for.
abbrev pub wanted_name : Text → Text → Text
wanted_name requested focused = if is_empty requested then focused else requested

find_screen_named :
    (wanted : Text) (screens : List (Option Screen)) (s : Screen)
    → find_screen wanted screens ≡ some s
    → s.name ≡ wanted
unfolding find_screen
find_screen_named wanted [] s h = cc
find_screen_named wanted (none ∷ rest) s h = find_screen_named wanted rest s h
find_screen_named wanted (some t ∷ rest) s h =
    ground (arith, find_screen_named wanted rest s, text_eq_iff t.name wanted)

find_screen-none :
    (wanted : Text) (screens : List (Option Screen))
    → find_screen wanted screens ≡ none
    → all (λ s. not (is_named wanted s)) screens ≡ true
unfolding find_screen
find_screen-none wanted [] h = refl
find_screen-none wanted (none ∷ rest) h = find_screen-none wanted rest h
find_screen-none wanted (some t ∷ rest) h = ground (arith, find_screen-none wanted rest)

-- The screen of the requested name is resolved, or without one that of the focused monitor's name; if
-- no screen has that name, the first screen is.
pub resolve_screen_named :
    (requested focused : Text) (screens : List (Option Screen))
    → ((s : Screen) × (resolve_screen requested focused screens ≡ some s)
        × (s.name ≡ wanted_name requested focused))
      ⊎ ((all (λ s. not (is_named (wanted_name requested focused) s)) screens ≡ true)
          × (resolve_screen requested focused screens ≡ first_screen screens))
unfolding resolve_screen
resolve_screen_named requested focused screens =
    elim (Option-cases (find_screen (wanted_name requested focused) screens)) [
      | inl e ↦
          inr (
            find_screen-none (wanted_name requested focused) screens e,
            rw (e, resolve_screen) refl,
          )
      | inr (s, e) ↦ inl (
        s,
        rw (e, resolve_screen) refl,
        find_screen_named (wanted_name requested focused) screens s e,
      )
    ]
