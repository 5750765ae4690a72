-- ===== src/Overlay.antt =====
-- HackerTyper.qml: the terminal overlay as a state machine. What it asks of the desktop (hiding,
-- focus, scrolling, the cursor timer) is a list of effects, in order.
pub mod Keys
pub mod Typing
pub mod Access
pub mod Invariant
pub mod Rendered
pub mod Launching
use omarchy_hackertyper.Base.{
  ℕ, ◌+◌, Bool, true, false, not, ◌&&◌, ◌||◌, List, [], ◌∷◌, ◌++◌, Option, none, some, ◌==◌,
  if◌then◌else◌, ltb, leb, Text, codes, length, take,
}
use omarchy_hackertyper.Highlight.Scanner.{Cache}
use omarchy_hackertyper.Lines.{is_empty}
use omarchy_hackertyper.Markup.{Theme, build_highlighted_markup}
use omarchy_hackertyper.Number.{Number, finite, pos, number}
use omarchy_hackertyper.Payload.{Engine, Json, property, is_truthy, text_property, parse_payload}
use omarchy_hackertyper.Progress.{advance, retreat}
use omarchy_hackertyper.Service.{Service, selected_source, select_source}
use omarchy_hackertyper.Sources.{Source}

-- `accessState`: "", "granted" and "denied".
pub data AccessState : Type 0 where
  no_message granted denied : AccessState

pub record Overlay : Type 0 where
  -- `shell && typeof shell.hide === "function"`
  pub can_hide : Bool
  -- `manifest && manifest.id`, empty where there is none
  pub manifest_id : Text
  pub opened : Bool
  pub target_screen_name : Text
  pub progress : ℕ
  pub characters_per_key : ℕ
  pub cursor_visible : Bool
  pub access_count : ℕ
  pub denied_count : ℕ
  pub access_state : AccessState

abbrev pub new_overlay : Bool → Text → Overlay
new_overlay can_hide manifest_id = record {
  can_hide = can_hide;
  manifest_id = manifest_id;
  opened = false;
  target_screen_name = [];
  progress = 0;
  characters_per_key = 3;
  cursor_visible = true;
  access_count = 0;
  denied_count = 0;
  access_state = no_message;
}

pub data Effect : Type 0 where
  hide : Text → Effect
  restart_cursor_timer focus_catcher scroll_to_end : Effect

-- The read-only properties that follow the service.
abbrev pub source_text : Option Service → Text
source_text none = []
source_text (some s) = s.source_text

abbrev pub language_of : Option Source → Text
language_of none = []
language_of (some source) = source.language

abbrev pub source_language : Option Service → Text
source_language none = []
source_language (some s) = language_of (selected_source s)

abbrev pub cursor_text : Bool → Text
cursor_text true = 0x2588 ∷ []
cursor_text false = b' ' ∷ []

-- `renderedMarkup`; `none` for an exception.
unfoldable pub rendered_markup : Theme → Cache → Overlay → Option Service → Option (Text × Cache)
unfolding build_highlighted_markup selected_source
rendered_markup theme cache o service =
    elim (build_highlighted_markup theme cache (take o.progress (source_text service))
      (source_language service)) [
        | none ↦ none
        | some (markup, later) ↦ some (markup ++ cursor_text o.cursor_visible, later)
      ]

-- `if (service && payload.sourceId) service.selectSource(payload.sourceId)`
abbrev pub select_payload : Engine → Option Service → Option Json → Option Service
select_payload e none id = none
select_payload e (some s) none = some s
select_payload e (some s) (some id) =
    if is_truthy id then some (select_source s (e.to_text id)).0 else some s

unfoldable pub open_overlay :
    Engine → Overlay → Option Service → Text → Overlay × Option Service × List Effect
unfolding parse_payload select_source
open_overlay e o service payload_json =
    let payload = parse_payload e payload_json in
    (
      record o {
        target_screen_name = text_property e (property payload (codes "screenName"));
        progress = 0;
        access_count = 0;
        denied_count = 0;
        access_state = no_message;
        cursor_visible = true;
        opened = true;
      },
      select_payload e service (property payload (codes "sourceId")),
      focus_catcher ∷ scroll_to_end ∷ [],
    )

unfoldable pub close : Overlay → Overlay
close o = record o { opened = false; access_state = no_message }

abbrev pub hide_id : Text → Text
hide_id id = if is_empty id then codes "codefriendly.hackertyper" else id

unfoldable pub dismiss : Overlay → Overlay × List Effect
unfolding close
dismiss o = (close o, (if o.can_hide then hide (hide_id o.manifest_id) ∷ [] else []))

unfoldable pub toggle : Engine → Overlay → Option Service → Overlay × Option Service × List Effect
unfolding dismiss open_overlay
toggle e o service =
    if o.opened
    then (let (o', effects) = dismiss o in (o', service, effects))
    else open_overlay e o service (codes "{}")

unfoldable pub wake_cursor : Overlay → Overlay × List Effect
wake_cursor o = (record o { cursor_visible = true }, restart_cursor_timer ∷ [])

unfoldable pub set_access_state : Overlay → AccessState → Overlay × List Effect
unfolding wake_cursor
set_access_state o next = wake_cursor (record o { access_state = next })

-- The blinking of the cursor, every 520 ms while the overlay is open.
unfoldable pub blink : Overlay → Overlay
blink o = record o { cursor_visible = not o.cursor_visible }

pub data Key : Type 0 where
  escape alt caps_lock shift control meta alt_gr backspace : Key
  other : ℕ → Key

pub record KeyEvent : Type 0 where
  pub key : Key
  pub is_auto_repeat : Bool
  pub native_scan_code : ℕ

abbrev pub is_escape : Key → Bool
is_escape escape = true
is_escape _ = false

abbrev pub is_alt : Key → Bool
is_alt alt = true
is_alt _ = false

abbrev pub is_caps_lock : Key → Bool
is_caps_lock caps_lock = true
is_caps_lock _ = false

abbrev pub is_backspace : Key → Bool
is_backspace backspace = true
is_backspace _ = false

abbrev pub is_modifier_only : Key → Bool
is_modifier_only shift = true
is_modifier_only control = true
is_modifier_only meta = true
is_modifier_only alt_gr = true
is_modifier_only _ = false

-- A number as the value of an `int` property; the moves give nothing but natural numbers.
abbrev pub int_of : Number → ℕ
int_of (finite (pos n)) = n
int_of _ = 0

abbrev pub has_message : AccessState → Bool
has_message no_message = false
has_message _ = true

-- What handling a key gives; `accepted` is the field of the event.
pub record Handled : Type 0 where
  pub overlay : Overlay
  pub effects : List Effect
  pub accepted : Bool

abbrev pub handled : Overlay × List Effect → Handled
handled (o, effects) = record { overlay = o; effects = effects; accepted = true }

handle_escape : Overlay → Overlay × List Effect
handle_escape o =
    if has_message o.access_state then (record o { access_state = no_message }, []) else dismiss o

-- The third press of `Alt` shows the message and starts the count again.
count_granted : Overlay → Bool → Overlay × List Effect
count_granted o repeated =
    if repeated
    then (o, [])
    else let counted = o.access_count + 1 in
      if leb 3 counted
      then set_access_state (record o { access_count = 0 }) granted
      else (record o { access_count = counted }, [])

count_denied : Overlay → Bool → Overlay × List Effect
count_denied o repeated =
    if repeated
    then (o, [])
    else let counted = o.denied_count + 1 in
      if leb 3 counted
      then set_access_state (record o { denied_count = 0 }) denied
      else (record o { denied_count = counted }, [])

-- The new position: back on `Backspace`, else forward where a text is loaded.
move : Overlay → ℕ → Key → ℕ
move o size key =
    if is_backspace key
    then int_of (retreat (number o.progress) (number o.characters_per_key) (number size))
    else if ltb 0 size
    then int_of (advance (number o.progress) (number o.characters_per_key) (number size))
    else o.progress

type_key : Overlay → ℕ → Key → Overlay × List Effect
type_key o size key =
    let (o', effects) = wake_cursor (record o { progress = move o size key }) in
    (o', effects ++ scroll_to_end ∷ [])

-- `handleKey`, with the length of the text that is loaded.
unfoldable pub handle_key : Overlay → ℕ → KeyEvent → Handled
unfolding handle_escape count_granted count_denied move type_key dismiss set_access_state
handle_key o size event =
    if is_escape event.key
    then handled (handle_escape o)
    else if is_alt event.key
    then handled (count_granted o event.is_auto_repeat)
    else if is_caps_lock event.key || event.native_scan_code == 66
    then handled (count_denied o event.is_auto_repeat)
    else if is_modifier_only event.key
    then handled (o, [])
    else handled (type_key o size event.key)
