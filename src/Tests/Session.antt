-- ===== src/Tests/Session.antt =====
-- HackerTyper.qml.
use omarchy_hackertyper.Base.{
  ◌+◌, ◌*◌, min, true, false, List, [], ◌∷◌, some, codes, take, ◌≡◌, refl, arith,
}
use omarchy_hackertyper.Overlay.Access.{press_all, press_all-granted}
use omarchy_hackertyper.Overlay.Invariant.{
  Reach, here, next, opens, Session, IsValid as IsValidOverlay, Reach-IsValid,
}
use omarchy_hackertyper.Overlay.Keys.{press_open, asked_to_hide, press_open_escapes}
use omarchy_hackertyper.Overlay.Typing.{
  stride, press_all-types_forward, press_all_reveals, press_all_undone,
}
use omarchy_hackertyper.Overlay.{
  Overlay, no_message, granted, denied, new_overlay, open_overlay, escape, alt, backspace, other,
  KeyEvent,
}
use omarchy_hackertyper.Tests.Samples.{key, service, overlay, engine}

abbrev three_keys : List KeyEvent
three_keys = key (other b'a') ∷ key (other b'b') ∷ key (other b'c') ∷ []

abbrev three_back : List KeyEvent
three_back = key backspace ∷ key backspace ∷ key backspace ∷ []

press_all-types_forward_example :
    (press_all overlay 30 three_keys).progress ≡ min (6 + 3 * stride overlay) 30
press_all-types_forward_example = press_all-types_forward overlay 30 three_keys (omega arith) refl

three_keys_reveal :
    take (press_all overlay 15 three_keys).progress (codes "int main() {}\n\n")
    ≡ codes "int main() {}\n\n"
three_keys_reveal =
    press_all_reveals overlay (codes "int main() {}\n\n") three_keys (omega arith) refl
      (omega arith)

press_all_undone_example : (press_all (press_all overlay 30 three_keys) 30 three_back).progress ≡ 6
press_all_undone_example =
    press_all_undone overlay 30 three_keys three_back refl refl refl (omega arith)

-- `Alt` three times, with other keys in between.
abbrev alts : List KeyEvent
alts = key alt ∷ key (other b'x') ∷ key alt ∷ key backspace ∷ key alt ∷ []

press_all-granted_example : (press_all overlay 30 alts).access_state ≡ granted
press_all-granted_example = press_all-granted overlay 30 alts (omega arith) refl

abbrev overlay_denied : Overlay
overlay_denied = record overlay { access_state = denied; denied_count = 2 }

press_open_escapes_example :
    (press_open overlay_denied 8 (key escape ∷ [])
      ≡ (record overlay_denied { access_state = no_message }, []))
    × (press_open overlay_denied 8 (key escape ∷ key escape ∷ three_keys) ≡ (
      record overlay_denied { opened = false; access_state = no_message },
      asked_to_hide overlay_denied,
    ))
press_open_escapes_example =
    press_open_escapes overlay_denied 8 (key escape) (key escape) three_keys refl refl refl

abbrev first_session : Session
first_session = record { overlay = new_overlay true (codes ""); service = some service }

opened_session : Reach engine first_session (record {
  overlay = (open_overlay engine first_session.overlay (some service) (codes "")).0;
  service = (open_overlay engine first_session.overlay (some service) (codes "")).1;
})
opened_session = next here (opens first_session (codes ""))

Reach-IsValid_example :
    IsValidOverlay (open_overlay engine first_session.overlay (some service) (codes "")).0
Reach-IsValid_example = Reach-IsValid engine true (codes "") (some service) _ opened_session
