-- ===== src/Tests/Services.antt =====
-- Service.qml, Panel.qml and the screens.
use omarchy_hackertyper.Base.{
  ℕ, true, not, List, [], ◌∷◌, Option, none, some, Text, codes, all, ◌≡◌, ◌⊎◌, refl,
}
use omarchy_hackertyper.Catalog.{sources}
use omarchy_hackertyper.Panel.Choice.{option_at, choose_language_lem}
use omarchy_hackertyper.Panel.Dropdown.{
  View, new_dropdown, followed, picked, Turns, none_yet, then_one, chooses, Turns-shows,
}
use omarchy_hackertyper.Panel.{new_panel, Entry, language_options, choose_language}
use omarchy_hackertyper.Payload.{Engine}
use omarchy_hackertyper.Screen.Choice.{wanted_name, resolve_screen_named}
use omarchy_hackertyper.Screen.{Screen, is_named, first_screen, resolve_screen}
use omarchy_hackertyper.Service.Loading.{Reach, here, next, loads, IsFaithful, Reach-IsFaithful}
use omarchy_hackertyper.Service.Selection.{SelectsOne, select_source-SelectsOne, ipc_select_ok}
use omarchy_hackertyper.Service.{Service, new_service, select_source, ipc_select, ok, on_loaded}
use omarchy_hackertyper.Sources.Choice.{source_at}
use omarchy_hackertyper.Sources.{Source}

abbrev service : Service
service = new_service true none (codes "/home/me")

abbrev lua_source : Source
lua_source = record {
  id = codes "workspace-rules";
  name = codes "Workspace Rules";
  language = codes "Lua";
  description = codes "Workspace and session rule engine.";
  file = codes "sources/workspace-rules.lua";
  license = codes "MIT";
  provenance = codes "Project-authored MIT source.";
}

lua_at : source_at sources 12 ≡ some lua_source
unfolding sources
lua_at = refl

select_source-SelectsOne_example :
    SelectsOne service (codes "no-such-source") (select_source service (codes "no-such-source"))
select_source-SelectsOne_example = select_source-SelectsOne service (codes "no-such-source")

unknown_selected : (ipc_select service (codes "no-such-source")).1 ≡ ok
unknown_selected = ipc_select_ok service (codes "no-such-source")

abbrev silent : Engine
silent = record { parse = λ t. none; stringify = λ v. []; to_text = λ v. [] }

-- Every file reads the same.
abbrev files : Text → Option Text
files path = some (codes "# :: note\ncode\n")

loaded_service : Reach files service (on_loaded service (codes "# :: note\ncode\n"))
loaded_service = next here (loads service (codes "# :: note\ncode\n") refl)

Reach-IsFaithful_example : IsFaithful files (on_loaded service (codes "# :: note\ncode\n"))
Reach-IsFaithful_example = Reach-IsFaithful files true none (codes "/home/me") _ loaded_service

abbrev lua_entry : Entry
lua_entry = record { value = codes "workspace-rules"; label = codes "Lua" }

lua_option : option_at (language_options (some service)) 12 ≡ some lua_entry
unfolding language_options
lua_option = refl

choose_language_lem_example :
    (source : Source) × (later : Service) × (source_at sources 12 ≡ some source)
    × (source.language ≡ codes "Lua")
    × ((choose_language new_panel (some service) (codes "workspace-rules")).1 ≡ some later)
    × (later.selected_source_id ≡ source.id)
choose_language_lem_example = choose_language_lem new_panel service 12 lua_entry lua_option

abbrev first_view : View
first_view = record { dropdown = new_dropdown (some service); hacker = service }

-- A choice that the list takes over.
abbrev chosen : View
chosen = record {
  dropdown =
      followed (picked first_view.dropdown true (codes "workspace-rules")) service
        (select_source service (codes "workspace-rules")).0;
  hacker = (select_source service (codes "workspace-rules")).0;
}

chosen-Turns : Turns files first_view chosen
chosen-Turns = then_one none_yet (chooses 12 lua_entry true lua_option)

Turns-shows_example :
    (chosen.dropdown.value ≡ chosen.hacker.selected_source_id)
    × (i : ℕ) × (entry : Entry) × (option_at (language_options (some chosen.hacker)) i ≡ some entry)
    × (entry.value ≡ chosen.dropdown.value)
Turns-shows_example = Turns-shows files true none (codes "/home/me") chosen chosen-Turns

abbrev screens : List (Option Screen)
screens = none ∷ some (record { name = codes "DP-1" }) ∷ []

resolve_screen_named_example :
    ((s : Screen) × (resolve_screen (codes "") (codes "DP-1") screens ≡ some s)
      × (s.name ≡ wanted_name (codes "") (codes "DP-1")))
    ⊎ ((all (λ s. not (is_named (wanted_name (codes "") (codes "DP-1")) s)) screens ≡ true)
        × (resolve_screen (codes "") (codes "DP-1") screens ≡ first_screen screens))
resolve_screen_named_example = resolve_screen_named (codes "") (codes "DP-1") screens
