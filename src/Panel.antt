-- ===== src/Panel.antt =====
-- Panel.qml: the panel of the bar, with its list of languages and its button. The panel controller,
-- the drop-down list and the timer are the desktop's; what is asked of them is a list of effects.
pub mod Choice
pub mod Launching
pub mod Terminal
pub mod Dropdown
use omarchy_hackertyper.Base.{
  ℕ, zero, suc, ◌+◌, Bool, true, false, not, ◌&&◌, List, [], ◌∷◌, map, Option, none, some, ◌==◌,
  if◌then◌else◌, Text, codes, ltb, length,
}
use omarchy_hackertyper.Catalog.{sources}
use omarchy_hackertyper.Lines.{is_empty}
use omarchy_hackertyper.Number.{
  ℤ, pos, negsuc, finite, Number, number, number_add, math_max, math_min,
}
use omarchy_hackertyper.Payload.{Engine}
use omarchy_hackertyper.Screen.{Screen}
use omarchy_hackertyper.Service.{Service, Summons, select_source, launch}
use omarchy_hackertyper.Sources.{Source}

pub record Panel : Type 0 where
  pub opened : Bool
  pub cursor_index : ℕ
  pub pending_screen_name : Text
  -- The timer of 120 ms behind the button.
  pub launch_pending : Bool

abbrev pub launch_index : ℕ
launch_index = 1

abbrev pub new_panel : Panel
new_panel = record {
  opened = false;
  cursor_index = 0;
  pending_screen_name = [];
  launch_pending = false;
}

pub record Entry : Type 0 where
  pub value : Text
  pub label : Text

abbrev entry_of : Source → Entry
entry_of s = record { value = s.id; label = s.language }

-- `languageOptions`
unfoldable pub language_options : Option Service → List Entry
unfolding sources
language_options none = []
language_options (some hacker) = map entry_of sources

unfoldable pub open_panel : Panel → Panel
open_panel p = record p { cursor_index = 0; opened = true }

abbrev pub close_panel : Panel → Panel
close_panel p = record p { opened = false }

abbrev pub index_of : Number → ℕ
index_of (finite (pos n)) = n
index_of _ = 0

unfoldable pub move_cursor : Panel → ℤ → Panel
unfolding math_max math_min number_add
move_cursor p delta = record p {
  cursor_index = index_of (
      math_max (number 0)
        (math_min (number launch_index) (number_add (number p.cursor_index) (finite delta))));
}

-- The key handler's `onMoveRequested`, with its `dy`.
unfoldable pub move_requested : Panel → ℤ → Panel
unfolding move_cursor
move_requested p (negsuc n) = move_cursor p (negsuc 0)
move_requested p (pos zero) = p
move_requested p (pos (suc n)) = move_cursor p (pos 1)

-- What the panel reads of the desktop. A reference that is missing is `none`, a missing name empty.
pub record Bar : Type 0 where
  pub screen : Option Screen

pub record Window : Type 0 where
  pub screen : Option Screen

-- An item, with the window of its `QsWindow`.
pub record Item : Type 0 where
  pub qs_window : Option (Option Window)

pub record Desktop : Type 0 where
  pub bar : Option Bar
  pub anchor_item : Option Item

abbrev pub bar_screen : Option Bar → Option Screen
bar_screen none = none
bar_screen (some bar) = bar.screen

abbrev pub name_of : Option Screen → Text
name_of none = []
name_of (some s) = s.name

abbrev pub window_name : Option (Option Window) → Text
window_name none = []
window_name (some none) = []
window_name (some (some w)) = name_of w.screen

abbrev pub item_name : Option Item → Text
item_name none = []
item_name (some item) = window_name item.qs_window

-- `screenName`
unfoldable pub screen_name : Desktop → Text
screen_name d = elim (bar_screen d.bar) [ none ↦ item_name d.anchor_item | some s ↦ s.name ]

-- `launchSelected`
unfoldable pub launch_selected : Panel → Option Service → Desktop → Panel
unfolding screen_name
launch_selected p none desktop = p
launch_selected p (some hacker) desktop =
    if is_empty hacker.source_text
    then p
    else record (close_panel p) { pending_screen_name = screen_name desktop; launch_pending = true }

-- `activateCursor`; the flag says that the list of languages is toggled.
unfoldable pub activate_cursor : Panel → Option Service → Desktop → Panel × Bool
unfolding launch_selected
activate_cursor p none desktop = (p, false)
activate_cursor p (some hacker) desktop =
    if p.cursor_index == launch_index
    then (launch_selected p (some hacker) desktop, false)
    else (p, true)

-- What the button says, and whether it can be clicked.
abbrev pub button_text : Option Service → Text
button_text none = codes "Loading source…"
button_text (some hacker) =
    if is_empty hacker.source_text then codes "Loading source…" else codes "Launch"

abbrev pub button_enabled : Option Service → Bool
button_enabled none = false
button_enabled (some hacker) = ltb 0 (length hacker.source_text)

-- The button.
unfoldable pub click_launch : Panel → Option Service → Desktop → Panel
unfolding launch_selected
click_launch p hacker desktop =
    launch_selected (record p { cursor_index = launch_index }) hacker desktop

-- A choice in the list of languages, and the pointer over it.
unfoldable pub choose_language : Panel → Option Service → Text → Panel × Option Service
unfolding select_source
choose_language p none source_id = (record p { cursor_index = 0 }, none)
choose_language p (some hacker) source_id =
    (record p { cursor_index = 0 }, some (select_source hacker source_id).0)

abbrev pub hover_language : Panel → Bool → Panel
hover_language p is_hovered = if is_hovered then record p { cursor_index = 0 } else p

-- The timer's signal, with the answer of `launch`.
unfoldable pub launch_delayed :
    Engine → (Summons → Bool) → Panel → Option Service → Panel × Option Bool
unfolding launch
launch_delayed e summon p none = (record p { launch_pending = false }, none)
launch_delayed e summon p (some hacker) =
    (record p { launch_pending = false }, some (launch e summon hacker p.pending_screen_name))
