-- ===== src/BarWidget.antt =====
-- BarWidget.qml: the button in the bar, and the loader of the panel. Objects of the desktop are
-- references, which are numbers here; what they are is asked of the host.
pub mod Wiring
use omarchy_hackertyper.Base.{
  ℕ, Bool, true, false, ◌++◌, List, Option, none, some, ◌==◌, if◌then◌else◌, Text, codes, contains,
}
use omarchy_hackertyper.Service.{Service, selected_source}
use omarchy_hackertyper.Sources.{Source}

-- The desktop: `bar.shell`, and `shell.serviceFor`.
pub record Host : Type 0 where
  pub shell_of : ℕ → Option ℕ
  pub service_for : ℕ → Text → Option ℕ

-- The item of the loader, with the names of the properties that it has.
pub record Target : Type 0 where
  pub declares : List Text
  pub bar : Option ℕ
  pub anchor_item : Option ℕ
  pub host_widget : Option ℕ
  pub hacker : Option ℕ
  pub opened : Bool

pub record BarWidget : Type 0 where
  pub host : Host
  pub root : ℕ
  pub button : ℕ
  pub bar : Option ℕ
  pub hacker : Option ℕ
  -- `panelLoader.item`
  pub panel : Option Target
  -- The notice of a new bar, the binding of `hacker`, and a call that was put off, still to come.
  pub bar_notice : Bool
  pub hacker_notice : Bool
  pub inject_pending : Bool

abbrev pub new_widget : Host → ℕ → ℕ → BarWidget
new_widget host root button = record {
  host = host;
  root = root;
  button = button;
  bar = none;
  hacker = none;
  panel = none;
  bar_notice = false;
  hacker_notice = false;
  inject_pending = false;
}

abbrev pub module_name : Text
module_name = codes "codefriendly.hackertyper"

-- The value of `hacker`.
unfoldable pub service_of : Host → Option ℕ → Option ℕ
service_of host none = none
service_of host (some bar) = elim (host.shell_of bar) [
  | none ↦ none
  | some shell ↦ host.service_for shell module_name
]

abbrev pub is_opened : Option Target → Bool
is_opened none = false
is_opened (some t) = t.opened

-- `opened`
abbrev pub widget_opened : BarWidget → Bool
widget_opened w = is_opened w.panel

-- `"name" in target`
abbrev pub has : Target → Text → Bool
has t name = contains t.declares name

-- `if ("name" in target) target.name = value`, for the value of that property.
abbrev assigned : Target → Text → Option ℕ → Option ℕ → Option ℕ
assigned t name value old = if has t name then value else old

unfoldable pub inject_into : BarWidget → Target → Target
inject_into w t = record t {
  bar = assigned t (codes "bar") w.bar t.bar;
  anchor_item = assigned t (codes "anchorItem") (some w.button) t.anchor_item;
  host_widget = assigned t (codes "hostWidget") (some w.root) t.host_widget;
  hacker = assigned t (codes "hacker") w.hacker t.hacker;
}

abbrev injected : BarWidget → Option Target → Option Target
injected w none = none
injected w (some target) = some (inject_into w target)

-- `injectPanel`
unfoldable pub inject_panel : BarWidget → BarWidget
unfolding inject_into
inject_panel w = record w { panel = injected w w.panel }

abbrev pub same_reference : Option ℕ → Option ℕ → Bool
same_reference none none = true
same_reference (some a) (some b) = a == b
same_reference _ _ = false

-- A bar is assigned: if it is another one, `onBarChanged` and the binding of `hacker` are to come, in
-- any order.
unfoldable pub assign_bar : BarWidget → Option ℕ → BarWidget
assign_bar w bar =
    if same_reference bar w.bar
    then w
    else record w { bar = bar; bar_notice = true; hacker_notice = true }

-- Something that the binding of `hacker` reads of the desktop changes.
abbrev pub change_host : BarWidget → Host → BarWidget
change_host w host = record w { host = host; hacker_notice = true }

-- `onBarChanged`
unfoldable pub on_bar_changed : BarWidget → BarWidget
unfolding inject_panel
on_bar_changed w = inject_panel (record w { bar_notice = false })

-- The binding of `hacker`, with `onHackerChanged` if it has another value.
unfoldable pub update_hacker : BarWidget → BarWidget
unfolding inject_panel service_of
update_hacker w =
    let hacker = service_of w.host w.bar in
    if same_reference hacker w.hacker
    then record w { hacker_notice = false }
    else inject_panel (record w { hacker = hacker; hacker_notice = false })

-- `onLoaded`, with the new item.
unfoldable pub on_panel_loaded : BarWidget → Target → BarWidget
unfolding inject_panel
on_panel_loaded w target = record (inject_panel (record w { panel = some target })) {
  inject_pending = true;
}

-- The call that `onLoaded` put off.
unfoldable pub call_later : BarWidget → BarWidget
unfolding inject_panel
call_later w = inject_panel (record w { inject_pending = false })

-- What is asked of the panel.
pub data PanelCall : Type 0 where
  open_call close_call toggle_call : PanelCall

abbrev ask : Option Target → PanelCall → Option PanelCall
ask none call = none
ask (some t) call = some call

abbrev pub open_widget : BarWidget → Option PanelCall
open_widget w = ask w.panel open_call

abbrev pub close_widget : BarWidget → Option PanelCall
close_widget w = ask w.panel close_call

abbrev pub toggle_panel : BarWidget → Option PanelCall
toggle_panel w = ask w.panel toggle_call

pub data MouseButton : Type 0 where
  left_button middle_button right_button : MouseButton

unfoldable pub on_pressed : BarWidget → MouseButton → Option PanelCall
on_pressed w left_button = toggle_panel w
on_pressed w middle_button = none
on_pressed w right_button = none

abbrev named : Option Source → Text
named none = codes "Hacker Typer"
named (some source) = codes "Hacker Typer · " ++ source.name

-- `tooltipText`, with the services that references stand for.
unfoldable pub tooltip_text : (ℕ → Service) → BarWidget → Text
unfolding selected_source
tooltip_text services w = elim w.hacker [
  | none ↦ codes "Hacker Typer"
  | some r ↦ named (selected_source (services r))
]
