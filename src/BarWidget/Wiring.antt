-- ===== src/BarWidget/Wiring.antt =====
-- The references of a loaded panel follow those of the widget, in whatever order the notices of a
-- changed bar, the binding of the service, the loader and the call that is put off come.
use omarchy_hackertyper.BarWidget.{
  Host, Target, BarWidget, new_widget, service_of, has, inject_into, inject_panel, same_reference,
  assign_bar, change_host, on_bar_changed, update_hacker, on_panel_loaded, call_later,
}
use omarchy_hackertyper.Base.{
  ℕ, Bool, true, false, not, ◌&&◌, Option, none, some, ==_iff, if◌then◌else◌, Bool-cases, codes,
  ◌≡◌, subst, ◌⊎◌, refl, sym, ap, inl, inr,
}

-- What may happen, in any order.
pub data Step (w : BarWidget) : BarWidget → Type 0 where
  assigns : (bar : Option ℕ) → Step w (assign_bar w bar)
  host_changes : (host : Host) → Step w (change_host w host)
  notices_bar : w.bar_notice ≡ true → Step w (on_bar_changed w)
  updates_hacker : w.hacker_notice ≡ true → Step w (update_hacker w)
  loads : (target : Target) → Step w (on_panel_loaded w target)
  calls_later : w.inject_pending ≡ true → Step w (call_later w)
  -- The panel opens or closes.
  panel_turns :
      (target : Target) (opened : Bool)
      → w.panel ≡ some target
      → Step w (record w { panel = some (record target { opened = opened }) })

pub data Reach (w : BarWidget) : BarWidget → Type 0 where
  here : Reach w w
  next : {u v : BarWidget} → Reach w u → Step u v → Reach w v

-- A property that the panel has agrees with what it is to be.
abbrev Agree : Bool → Option ℕ → Option ℕ → Type 0
Agree false a b = Unit
Agree true a b = a ≡ b

abbrev Wired : BarWidget → Target → Type 0
Wired w t =
    Agree (has t (codes "bar") && not w.bar_notice) t.bar w.bar
    × Agree (has t (codes "anchorItem")) t.anchor_item (some w.button)
    × Agree (has t (codes "hostWidget")) t.host_widget (some w.root)
    × Agree (has t (codes "hacker")) t.hacker w.hacker

if-Agree : (b : Bool) (value old : Option ℕ) → Agree b (if b then value else old) value
if-Agree true value old = refl
if-Agree false value old = tt

and-Agree : (b c : Bool) (v u : Option ℕ) → Agree b v u → Agree (b && c) v u
and-Agree true true v u a = a
and-Agree true false v u a = tt
and-Agree false c v u a = tt

inject_into-Wired : (w : BarWidget) (t : Target) → Wired w (inject_into w t)
unfolding inject_into
inject_into-Wired w t = (
  and-Agree (has t (codes "bar")) (not w.bar_notice) _ w.bar
      (if-Agree (has t (codes "bar")) w.bar t.bar),
  if-Agree (has t (codes "anchorItem")) (some w.button) t.anchor_item,
  if-Agree (has t (codes "hostWidget")) (some w.root) t.host_widget,
  if-Agree (has t (codes "hacker")) w.hacker t.hacker,
)

abbrev PanelWired : BarWidget → Option Target → Type 0
PanelWired w none = Unit
PanelWired w (some t) = Wired w t

-- The service is the one that the host gives, unless the binding is still to be evaluated.
abbrev IsCurrent : BarWidget → Type 0
IsCurrent w = (w.hacker_notice ≡ true) ⊎ (w.hacker ≡ service_of w.host w.bar)

abbrev IsWired : BarWidget → Type 0
IsWired w = PanelWired w w.panel × IsCurrent w

same_reference_lem : (a b : Option ℕ) → same_reference a b ≡ true → a ≡ b
same_reference_lem none none h = refl
same_reference_lem (some a) (some b) h = ap some ((==_iff a b).0 h)
same_reference_lem none (some b) h = cc
same_reference_lem (some a) none h = cc

-- What a panel's references are compared with does not depend on these.
other-PanelWired :
    (w : BarWidget) (host : Host) (notice pending : Bool) (panel p : Option Target)
    → PanelWired w p
    → PanelWired
        (record w { host = host; hacker_notice = notice; inject_pending = pending; panel = panel })
        p
other-PanelWired w host notice pending panel none h = tt
other-PanelWired w host notice pending panel (some t) h = h

and-false : (b : Bool) (v u : Option ℕ) → Agree (b && false) v u
and-false true v u = tt
and-false false v u = tt

unsettled-PanelWired :
    (w : BarWidget) (bar : Option ℕ) (notice : Bool) (p : Option Target)
    → PanelWired w p
    → PanelWired (record w { bar = bar; bar_notice = true; hacker_notice = notice }) p
unsettled-PanelWired w bar notice none h = tt
unsettled-PanelWired w bar notice (some t) (_, a, h, s) =
    (and-false (has t (codes "bar")) t.bar bar, a, h, s)

inject_panel-PanelWired :
    (w : BarWidget) (p : Option Target)
    → PanelWired
        (inject_panel (record w { panel = p }))
        (inject_panel (record w { panel = p })).panel
unfolding inject_panel
inject_panel-PanelWired w none = tt
inject_panel-PanelWired w (some t) = inject_into-Wired w t

inject_panel-IsWired : (w : BarWidget) → IsCurrent w → IsWired (inject_panel w)
unfolding inject_panel
inject_panel-IsWired w s = (inject_panel-PanelWired w w.panel, s)

assign_bar-IsWired : (w : BarWidget) (bar : Option ℕ) → IsWired w → IsWired (assign_bar w bar)
unfolding assign_bar
assign_bar-IsWired w bar (p, s) = elim (Bool-cases (same_reference bar w.bar)) [
  | inl e ↦ rw e (p, s)
  | inr e ↦ rw e (unsettled-PanelWired w bar true w.panel p, inl refl)
]

update_hacker-IsWired : (w : BarWidget) → IsWired w → IsWired (update_hacker w)
unfolding update_hacker
update_hacker-IsWired w (p, s) =
    let hacker = service_of w.host w.bar in
    elim (Bool-cases (same_reference hacker w.hacker)) [
      | inl e ↦ rw e (
        other-PanelWired w w.host false w.inject_pending w.panel w.panel p,
        inr (sym (same_reference_lem hacker w.hacker e)),
      )
      | inr e ↦
          rw e
            (inject_panel-IsWired (record w { hacker = hacker; hacker_notice = false }) (inr refl))
    ]

on_panel_loaded-IsWired : (w : BarWidget) (t : Target) → IsWired w → IsWired (on_panel_loaded w t)
unfolding on_panel_loaded
on_panel_loaded-IsWired w t (p, s) =
    let (p', s') = inject_panel-IsWired (record w { panel = some t }) s in
    let v = inject_panel (record w { panel = some t }) in
    (other-PanelWired v v.host v.hacker_notice true v.panel v.panel p', s')

turned-IsWired :
    (w : BarWidget) (t : Target) (opened : Bool)
    → w.panel ≡ some t
    → IsWired w
    → IsWired (record w { panel = some (record t { opened = opened }) })
turned-IsWired w t opened e (p, s) = (subst (PanelWired w) e p, s)

Step-IsWired : {w v : BarWidget} → Step w v → IsWired w → IsWired v
unfolding on_bar_changed call_later
Step-IsWired {w} (assigns bar) i = assign_bar-IsWired w bar i
Step-IsWired {w} (host_changes host) (p, s) =
    (other-PanelWired w host true w.inject_pending w.panel w.panel p, inl refl)
Step-IsWired {w} (notices_bar h) (p, s) = inject_panel-IsWired (record w { bar_notice = false }) s
Step-IsWired {w} (updates_hacker h) i = update_hacker-IsWired w i
Step-IsWired {w} (loads t) i = on_panel_loaded-IsWired w t i
Step-IsWired {w} (calls_later h) (p, s) =
    inject_panel-IsWired (record w { inject_pending = false }) s
Step-IsWired {w} (panel_turns t opened e) i = turned-IsWired w t opened e i

Reach-IsWired :
    (host : Host) (root button : ℕ) {w : BarWidget}
    → Reach (new_widget host root button) w
    → IsWired w
unfolding service_of
Reach-IsWired host root button here = (tt, inr refl)
Reach-IsWired host root button (next r s) = Step-IsWired s (Reach-IsWired host root button r)

-- The references of a panel that are settled: those of the widget, where the panel has the property.
pub record Follows (host : Host) (bar : Option ℕ) (root button : ℕ) (t : Target) : Type 0 where
  pub bar_follows : Agree (has t (codes "bar")) t.bar bar
  pub anchor_follows : Agree (has t (codes "anchorItem")) t.anchor_item (some button)
  pub widget_follows : Agree (has t (codes "hostWidget")) t.host_widget (some root)
  pub service_follows : Agree (has t (codes "hacker")) t.hacker (service_of host bar)

-- After any sequence of changed bars, changes of the desktop, loads of the panel, openings and closings
-- of it and calls that were put off, in any order, with the notice of a bar and the evaluation of the
-- service's binding at any later time: once neither is outstanding, the widget has the service that
-- the shell of its bar gives, and a loaded panel has the widget, its button, its bar and that
-- service, each where the panel has a property for it.
pub Reach-Follows :
    (host : Host) (root button : ℕ) (w : BarWidget) (t : Target)
    → Reach (new_widget host root button) w
    → w.panel ≡ some t
    → w.bar_notice ≡ false
    → w.hacker_notice ≡ false
    → (w.hacker ≡ service_of w.host w.bar) × Follows w.host w.bar w.root w.button t
Reach-Follows host root button w t r e b h =
    let (p, s) = Reach-IsWired host root button r in
    let current = settled s in (current, followed current (rw e at p))
  where
    settled : IsCurrent w → w.hacker ≡ service_of w.host w.bar
    settled (inl n) = cc
    settled (inr s) = s

    followed :
        w.hacker ≡ service_of w.host w.bar → Wired w t → Follows w.host w.bar w.root w.button t
    followed current (x, y, z, v) = record {
      bar_follows = noticed (has t (codes "bar")) (rw b at x);
      anchor_follows = y;
      widget_follows = z;
      service_follows = subst (Agree (has t (codes "hacker")) t.hacker) current v;
    }
      where
        noticed : (d : Bool) → Agree (d && true) t.bar w.bar → Agree d t.bar w.bar
        noticed true a = a
        noticed false a = a
