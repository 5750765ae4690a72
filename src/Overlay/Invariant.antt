-- ===== src/Overlay/Invariant.antt =====
-- The overlay with its service, whatever happens to them.
use omarchy_hackertyper.Base.{ℕ, ◌<◌, Bool, true, false, Option, Text, ◌≡◌, refl, arith}
use omarchy_hackertyper.Overlay.Access.{handle_key-access_count, handle_key-denied_count}
use omarchy_hackertyper.Overlay.{
  no_message, Overlay, new_overlay, open_overlay, close, dismiss, toggle, blink, KeyEvent,
  handle_key, source_text,
}
use omarchy_hackertyper.Base.{length}
use omarchy_hackertyper.Payload.{Engine}
use omarchy_hackertyper.Service.{Service}

pub record Session : Type 0 where
  pub overlay : Overlay
  pub service : Option Service

-- The overlay's own operations; keys come only while it is open. The service may change in any way.
pub data Step (e : Engine) : Session → Session → Type 0 where
  keys :
      (s : Session) (k : KeyEvent)
      → s.overlay.opened ≡ true
      → Step e s
          (record s { overlay = (handle_key s.overlay (length (source_text s.service)) k).overlay })
  opens :
      (s : Session) (payload : Text)
      → Step e s (record {
        overlay = (open_overlay e s.overlay s.service payload).0;
        service = (open_overlay e s.overlay s.service payload).1;
      })
  closes : (s : Session) → Step e s (record s { overlay = close s.overlay })
  dismisses : (s : Session) → Step e s (record s { overlay = (dismiss s.overlay).0 })
  toggles :
      (s : Session)
      → Step e s (record {
        overlay = (toggle e s.overlay s.service).0;
        service = (toggle e s.overlay s.service).1;
      })
  blinks : (s : Session) → Step e s (record s { overlay = blink s.overlay })
  serves : (s : Session) (service : Option Service) → Step e s (record s { service = service })

pub data Reach (e : Engine) (s : Session) : Session → Type 0 where
  here : Reach e s s
  next : {t u : Session} → Reach e s t → Step e t u → Reach e s u

-- The counts stay below three, and a closed overlay has no message.
pub record IsValid (o : Overlay) : Type 0 where
  pub granted_below : o.access_count < 3
  pub denied_below : o.denied_count < 3
  pub closed_quiet : o.opened ≡ false → o.access_state ≡ no_message

keys-IsValid :
    (o : Overlay) (size : ℕ) (k : KeyEvent)
    → o.opened ≡ true
    → IsValid o
    → IsValid (handle_key o size k).overlay
keys-IsValid o size k h v = record {
  granted_below = ground (arith, handle_key-access_count o size k, v.granted_below);
  denied_below = ground (arith, handle_key-denied_count o size k, v.denied_below);
  closed_quiet = quiet o h;
}
  where
    quiet :
        (p : Overlay)
        → p.opened ≡ true
        → (handle_key p size k).overlay.opened ≡ false
        → (handle_key p size k).overlay.access_state ≡ no_message
    quiet p a = unfold handle_key in ground arith

fresh-IsValid :
    (e : Engine) (o : Overlay) (service : Option Service) (payload : Text)
    → IsValid (open_overlay e o service payload).0
unfolding open_overlay
fresh-IsValid e o service payload = record {
  granted_below = omega arith;
  denied_below = omega arith;
  closed_quiet = λ h. cc;
}

close-IsValid : (o : Overlay) → IsValid o → IsValid (close o)
unfolding close
close-IsValid o v = record {
  granted_below = v.granted_below;
  denied_below = v.denied_below;
  closed_quiet = λ h. refl;
}

dismiss-IsValid : (o : Overlay) → IsValid o → IsValid (dismiss o).0
unfolding dismiss
dismiss-IsValid o v = close-IsValid o v

toggle-IsValid :
    (e : Engine) (o : Overlay) (service : Option Service)
    → IsValid o
    → IsValid (toggle e o service).0
unfolding toggle
toggle-IsValid e o service v = ground (arith, dismiss-IsValid o v, fresh-IsValid e o service)

blink-IsValid : (o : Overlay) → IsValid o → IsValid (blink o)
unfolding blink
blink-IsValid o v = record {
  granted_below = v.granted_below;
  denied_below = v.denied_below;
  closed_quiet = v.closed_quiet;
}

pub Step-IsValid : (e : Engine) {s t : Session} → Step e s t → IsValid s.overlay → IsValid t.overlay
Step-IsValid e (keys s k h) v = keys-IsValid s.overlay _ k h v
Step-IsValid e (opens s payload) v = fresh-IsValid e s.overlay s.service payload
Step-IsValid e (closes s) v = close-IsValid s.overlay v
Step-IsValid e (dismisses s) v = dismiss-IsValid s.overlay v
Step-IsValid e (toggles s) v = toggle-IsValid e s.overlay s.service v
Step-IsValid e (blinks s) v = blink-IsValid s.overlay v
Step-IsValid e (serves s service) v = v

-- In every state that is reached from a new overlay, by keys that are pressed while it is open, and by
-- opening, closing, dismissing, toggling, the cursor's timer and changes of the service at any time, in
-- any order, both counts are below three, and a closed overlay has no message.
pub Reach-IsValid :
    (e : Engine) (can_hide : Bool) (manifest_id : Text) (service : Option Service) (s : Session)
    → Reach e (record { overlay = new_overlay can_hide manifest_id; service = service }) s
    → IsValid s.overlay
Reach-IsValid e can_hide manifest_id service s r =
    go
      (record { granted_below = omega arith; denied_below = omega arith; closed_quiet = λ h. refl })
      r
  where
    go : {t u : Session} → IsValid t.overlay → Reach e t u → IsValid u.overlay
    go v here = v
    go v (next q st) = Step-IsValid e st (go v q)
