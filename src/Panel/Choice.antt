-- ===== src/Panel/Choice.antt =====
-- What the panel does to its state and to the service.
use omarchy_hackertyper.Base.{
  ℕ, zero, suc, ◌≤◌, Bool, List, [], ◌∷◌, map, Option, none, some, Text, ◌≡◌, refl, ap, arith,
}
use omarchy_hackertyper.Catalog.Entries.{source_by_id-sources}
use omarchy_hackertyper.Catalog.{sources}
use omarchy_hackertyper.Number.{ℤ}
use omarchy_hackertyper.Payload.{Engine}
use omarchy_hackertyper.Panel.{
  Desktop, Panel, Entry, entry_of, language_options, open_panel, close_panel, move_cursor,
  launch_selected, activate_cursor, click_launch, choose_language, hover_language, launch_delayed,
  launch_index,
}
use omarchy_hackertyper.Service.Selection.{select_source-Selects}
use omarchy_hackertyper.Service.{Service, Summons, select_source}
use omarchy_hackertyper.Sources.Choice.{source_at}
use omarchy_hackertyper.Sources.{Source}

abbrev pub option_at : List Entry → ℕ → Option Entry
option_at [] i = none
option_at (e ∷ rest) zero = some e
option_at (e ∷ rest) (suc i) = option_at rest i

pub source_of_option :
    (list : List Source) (i : ℕ) (e : Entry)
    → option_at (map entry_of list) i ≡ some e
    → (s : Source) × (source_at list i ≡ some s) × (entry_of s ≡ e)
source_of_option [] i e h = cc
source_of_option (s ∷ rest) zero e h = (s, refl, cc)
source_of_option (s ∷ rest) (suc i) e h = source_of_option rest i e h

-- Choosing the entry of a language in the panel selects a source of the catalog that is written in
-- that language.
pub choose_language_lem :
    (p : Panel) (hacker : Service) (i : ℕ) (entry : Entry)
    → option_at (language_options (some hacker)) i ≡ some entry
    → (source : Source) × (later : Service) × (source_at sources i ≡ some source)
      × (source.language ≡ entry.label)
      × ((choose_language p (some hacker) entry.value).1 ≡ some later)
      × (later.selected_source_id ≡ source.id)
unfolding choose_language language_options
choose_language_lem p hacker i entry h =
    let (source, at_i, same) = source_of_option sources i entry h in
    let found = source_by_id-sources i source at_i in
    let chosen = select_source-Selects hacker source.id source found in
    (
      source,
      (select_source hacker entry.value).0,
      at_i,
      ap (λ e. e.label) same,
      refl,
      rw (← same) chosen.selected,
    )

-- What may happen to a panel.
pub data Step (hacker : Option Service) : Panel → Panel → Type 0 where
  opens : (p : Panel) → Step hacker p (open_panel p)
  closes : (p : Panel) → Step hacker p (close_panel p)
  moves : (p : Panel) (delta : ℤ) → Step hacker p (move_cursor p delta)
  activates : (p : Panel) (desktop : Desktop) → Step hacker p (activate_cursor p hacker desktop).0
  clicks : (p : Panel) (desktop : Desktop) → Step hacker p (click_launch p hacker desktop)
  chooses : (p : Panel) (id : Text) → Step hacker p (choose_language p hacker id).0
  hovers : (p : Panel) (over : Bool) → Step hacker p (hover_language p over)
  fires :
      (p : Panel) (e : Engine) (summon : Summons → Bool)
      → Step hacker p (launch_delayed e summon p hacker).0

launch_selected-cursor_index :
    (p : Panel) (hacker : Option Service) (desktop : Desktop)
    → (launch_selected p hacker desktop).cursor_index ≡ p.cursor_index
unfolding launch_selected
launch_selected-cursor_index p none desktop = refl
launch_selected-cursor_index p (some hacker) desktop = ground arith

activate_cursor-cursor_index :
    (p : Panel) (hacker : Option Service) (desktop : Desktop)
    → (activate_cursor p hacker desktop).0.cursor_index ≡ p.cursor_index
unfolding activate_cursor
activate_cursor-cursor_index p none desktop = refl
activate_cursor-cursor_index p (some hacker) desktop =
    ground (arith, launch_selected-cursor_index p (some hacker) desktop)

choose_language-cursor_index :
    (p : Panel) (hacker : Option Service) (id : Text)
    → (choose_language p hacker id).0.cursor_index ≡ 0
unfolding choose_language
choose_language-cursor_index p none id = refl
choose_language-cursor_index p (some hacker) id = refl

launch_delayed-cursor_index :
    (e : Engine) (summon : Summons → Bool) (p : Panel) (hacker : Option Service)
    → (launch_delayed e summon p hacker).0.cursor_index ≡ p.cursor_index
unfolding launch_delayed
launch_delayed-cursor_index e summon p none = refl
launch_delayed-cursor_index e summon p (some hacker) = refl

-- The cursor stands on the list of languages or on the button, whatever happens to the panel.
pub Step-cursor_index :
    (hacker : Option Service) (p q : Panel)
    → Step hacker p q
    → p.cursor_index ≤ launch_index
    → q.cursor_index ≤ launch_index
Step-cursor_index hacker p q st h = go st h
  where
    go :
        {p q : Panel}
        → Step hacker p q
        → p.cursor_index ≤ launch_index
        → q.cursor_index ≤ launch_index
    go (opens p) h = unfold open_panel in omega arith
    go (closes p) h = h
    go (moves p delta) h = unfold move_cursor in ground arith
    go (activates p desktop) h = omega (arith, activate_cursor-cursor_index p hacker desktop)
    go (clicks p desktop) h =
        unfold click_launch in
        omega (
          arith,
          launch_selected-cursor_index (record p { cursor_index = launch_index }) hacker desktop,
        )
    go (chooses p id) h = omega (arith, choose_language-cursor_index p hacker id)
    go (hovers p over) h = ground arith
    go (fires p e summon) h = omega (arith, launch_delayed-cursor_index e summon p hacker)
