-- ===== src/Panel/Launching.antt =====
-- The way from the panel's button to the overlay.
use omarchy_hackertyper.Base.{
  Text, Option, none, ◌||◌, arith, Bool, true, false, [], ◌∷◌, some, ◌≡◌, refl, ap, ◌∙◌,
}
use omarchy_hackertyper.Catalog.{sources}
use omarchy_hackertyper.Lines.{is_empty}
use omarchy_hackertyper.Overlay.Launching.{opened_on, open_overlay-summons}
use omarchy_hackertyper.Overlay.{Overlay, focus_catcher, scroll_to_end, open_overlay}
use omarchy_hackertyper.Panel.{
  Panel, Desktop, button_enabled, screen_name, launch_selected, click_launch, launch_delayed,
}
use omarchy_hackertyper.Payload.{Engine, IsEngine}
use omarchy_hackertyper.Service.{Service, Summons, summons, launch}
use omarchy_hackertyper.Sources.{Source, source_by_id}

-- The button can be clicked exactly where a click starts the timer.
button_enabled-click :
    (p : Panel) (hacker : Option Service) (d : Desktop)
    → (click_launch p hacker d).launch_pending ≡ (button_enabled hacker || p.launch_pending)
unfolding click_launch launch_selected
button_enabled-click p none d = refl
button_enabled-click p (some s) d = go s.source_text refl
  where
    go :
        (t : Text)
        → s.source_text ≡ t
        → (click_launch p (some s) d).launch_pending ≡ (button_enabled (some s) || p.launch_pending)
    go [] e = rw e refl
    go (x ∷ t) e = rw e (ground arith)

-- The panel behind the button, the answer of the timer, and the overlay that is opened.
pub record IsLaunched (e : Engine) (summon : Summons → Bool) (p : Panel) (s : Service) (d : Desktop)
    (o : Overlay) (q : Summons) : Type 0 where
  pub closes : (click_launch p (some s) d).opened ≡ false
  pub waits : (click_launch p (some s) d).launch_pending ≡ true
  pub fires : (launch_delayed e summon (click_launch p (some s) d) (some s)).1 ≡ some (summon q)
  pub done : (launch_delayed e summon (click_launch p (some s) d) (some s)).0.launch_pending ≡ false
  pub opens :
      open_overlay e o (some s) q.payload
      ≡ (opened_on o (screen_name d), some s, focus_catcher ∷ scroll_to_end ∷ [])

-- With a source loaded whose id is one of the catalog's, a shell and a manifest to ask with, and an
-- engine that reads back what it writes, a click on the panel's button closes the panel and starts the
-- timer; when the timer ends, the shell is asked, and its answer is the answer; and the overlay that
-- it opens with what it was handed is a fresh terminal on the screen of the panel, with the service as
-- it was.
pub click_launch_lem :
    (e : Engine) (summon : Summons → Bool) (p : Panel) (s : Service) (d : Desktop) (o : Overlay)
    (t : Source) (q : Summons)
    → IsEngine e
    → is_empty s.source_text ≡ false
    → source_by_id sources s.selected_source_id ≡ some t
    → t.id ≡ s.selected_source_id
    → summons e s (screen_name d) ≡ some q
    → IsLaunched e summon p s d o q
unfolding click_launch launch_selected launch_delayed launch
click_launch_lem e summon p s d o t q v loaded found same h =
    let name : (click_launch p (some s) d).pending_screen_name ≡ screen_name d = rw loaded refl in
    let answer : launch e summon s (screen_name d) ≡ summon q = rw (launch, h) refl in
    record {
      closes = rw loaded refl;
      waits = rw loaded refl;
      fires = ap (λ n. some (launch e summon s n)) name ∙ ap some answer;
      done = refl;
      opens = open_overlay-summons e s o t (screen_name d) q v found same h;
    }
