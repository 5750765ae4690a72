-- ===== src/Tests/Desktop.antt =====
-- BarWidget.qml.
use omarchy_hackertyper.BarWidget.Wiring.{
  assigns, notices_bar, updates_hacker, loads, Reach, here, next, Follows, Reach-Follows,
}
use omarchy_hackertyper.BarWidget.{
  Host, Target, BarWidget, new_widget, service_of, assign_bar, on_bar_changed, update_hacker,
  on_panel_loaded, toggle_call, left_button, right_button, on_pressed, tooltip_text,
}
use omarchy_hackertyper.Base.{
  true, false, [], ◌∷◌, none, some, if◌then◌else◌, codes, text_eq, ◌≡◌, refl,
}
use omarchy_hackertyper.Service.{new_service, selected_source}

-- Each bar has the shell 1, which knows the service 5 by the name of the plugin.
abbrev host : Host
host = record {
  shell_of = λ bar. some 1;
  service_for =
      λ shell name. if text_eq name (codes "codefriendly.hackertyper") then some 5 else none;
}

-- A panel without a property for its host.
abbrev target : Target
target = record {
  declares = codes "bar" ∷ codes "anchorItem" ∷ codes "hacker" ∷ [];
  bar = none;
  anchor_item = none;
  host_widget = none;
  hacker = none;
  opened = false;
}

-- The panel is loaded first, then the bar 7 is set; the service's binding comes before the notice.
abbrev loaded_widget : BarWidget
loaded_widget = on_panel_loaded (new_widget host 2 3) target

abbrev wired_widget : BarWidget
wired_widget = on_bar_changed (update_hacker (assign_bar loaded_widget (some 7)))

abbrev wired_target : Target
wired_target = record target { bar = some 7; anchor_item = some 3; hacker = some 5 }

wired_widget-Reach : Reach (new_widget host 2 3) wired_widget
unfolding assign_bar update_hacker on_panel_loaded
wired_widget-Reach =
    next (next (next (next here (loads target)) (assigns (some 7))) (updates_hacker refl))
      (notices_bar refl)

wired_panel : wired_widget.panel ≡ some wired_target
unfolding on_bar_changed assign_bar update_hacker on_panel_loaded
wired_panel = refl

bar_noticed : wired_widget.bar_notice ≡ false
unfolding on_bar_changed
bar_noticed = refl

hacker_updated : wired_widget.hacker_notice ≡ false
unfolding on_bar_changed assign_bar update_hacker on_panel_loaded
hacker_updated = refl

Reach-Follows_example :
    (wired_widget.hacker ≡ service_of wired_widget.host wired_widget.bar)
    × Follows wired_widget.host wired_widget.bar wired_widget.root wired_widget.button wired_target
Reach-Follows_example =
    Reach-Follows host 2 3 wired_widget wired_target wired_widget-Reach wired_panel bar_noticed
      hacker_updated

wired_tooltip :
    tooltip_text (λ r. new_service true none []) wired_widget ≡ codes "Hacker Typer · Kernel"
unfolding tooltip_text selected_source on_bar_changed assign_bar update_hacker on_panel_loaded
wired_tooltip = refl

left_pressed : on_pressed loaded_widget left_button ≡ some toggle_call
unfolding on_pressed on_panel_loaded
left_pressed = refl

right_pressed : on_pressed loaded_widget right_button ≡ none
unfolding on_pressed
right_pressed = refl
