-- ===== src/Overlay/Launching.antt =====
-- From the service's `launch` to the open overlay: what is written there is read here.
use omarchy_hackertyper.Base.{
  true, [], ◌∷◌, Option, none, some, Bool-cases, Text, codes, text_eq, text_eq_iff, ◌≡◌, refl, sym,
  ap, inl, inr, arith,
}
use omarchy_hackertyper.Catalog.{sources}
use omarchy_hackertyper.Payload.{
  Engine, IsEngine, text, launch_payload, text_property, parse_payload,
}
use omarchy_hackertyper.Service.Selection.{select_source-Selects}
use omarchy_hackertyper.Service.{Service, Manifest, Summons, summons, select_source}
use omarchy_hackertyper.Sources.{Source, source_by_id}
use omarchy_hackertyper.Overlay.{
  Overlay, focus_catcher, scroll_to_end, no_message, select_payload, open_overlay,
}

-- A fresh terminal on a screen.
abbrev pub opened_on : Overlay → Text → Overlay
opened_on o screen_name = record o {
  target_screen_name = screen_name;
  progress = 0;
  access_count = 0;
  denied_count = 0;
  access_state = no_message;
  cursor_visible = true;
  opened = true;
}

parse_payload-stringify :
    (e : Engine) (a b : Text)
    → IsEngine e
    → parse_payload e (e.stringify (launch_payload a b)) ≡ launch_payload a b
unfolding parse_payload
parse_payload-stringify e a b v =
    rw (v.stringify_nonempty a b, v.parse_stringify a b, parse_payload) refl

text_property-text : (e : Engine) (t : Text) → IsEngine e → text_property e (some (text t)) ≡ t
text_property-text e t v = elim (Bool-cases (text_eq t (codes ""))) [
  | inl b ↦ rw b (sym ((text_eq_iff t (codes "")).0 b))
  | inr b ↦ rw b (v.to_text_text t)
]

-- Selecting the source that is selected changes nothing.
select_source_same :
    (s : Service) (t : Source)
    → source_by_id sources s.selected_source_id ≡ some t
    → t.id ≡ s.selected_source_id
    → (select_source s s.selected_source_id).0 ≡ s
select_source_same s t e same = (select_source-Selects s s.selected_source_id t e).keeps (sym same)

select_payload_same :
    (e : Engine) (s : Service) (t : Source)
    → IsEngine e
    → source_by_id sources s.selected_source_id ≡ some t
    → t.id ≡ s.selected_source_id
    → select_payload e (some s) (some (text s.selected_source_id)) ≡ some s
select_payload_same e s t v found same =
    elim (Bool-cases (text_eq s.selected_source_id (codes ""))) [
      | inl b ↦ rw b refl
      | inr b ↦
          rw (b, v.to_text_text s.selected_source_id) (ap some (select_source_same s t found same))
    ]

-- Opening the overlay by the payload that `launch` hands to the shell gives a fresh terminal on the
-- screen that `launch` was given, and leaves the service, with the text that it has loaded, as it is,
-- provided that the selected id is one of the catalog's.
pub open_overlay-summons :
    (e : Engine) (s : Service) (o : Overlay) (t : Source) (screen_name : Text) (q : Summons)
    → IsEngine e
    → source_by_id sources s.selected_source_id ≡ some t
    → t.id ≡ s.selected_source_id
    → summons e s screen_name ≡ some q
    → open_overlay e o (some s) q.payload
      ≡ (opened_on o screen_name, some s, focus_catcher ∷ scroll_to_end ∷ [])
unfolding open_overlay
open_overlay-summons e s o t screen_name q v found same h =
    rw (written, parse_payload-stringify e s.selected_source_id screen_name v)
      (rw (text_property-text e screen_name v, select_payload_same e s t v found same) refl)
  where
    payload_of :
        (m : Option Manifest)
        → s.manifest ≡ m
        → q.payload ≡ e.stringify (launch_payload s.selected_source_id screen_name)
    payload_of none g = unfold summons in ground arith
    payload_of (some m) g = unfold summons in ground arith

    written : q.payload ≡ e.stringify (launch_payload s.selected_source_id screen_name)
    written = payload_of s.manifest refl
