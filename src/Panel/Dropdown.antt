-- ===== src/Panel/Dropdown.antt =====
-- Panel.qml: the value of the list of languages, which is bound to the selected id until the panel
-- assigns to it. The list is the desktop's; whether it takes over a choice by itself is left open.
use omarchy_hackertyper.Base.{
  ℕ, zero, suc, Bool, true, false, List, [], ◌∷◌, map, Option, none, some, if◌then◌else◌,
  Bool-cases, Text, text_eq, text_eq_iff, ◌≡◌, refl, sym, ◌∙◌, inl, inr,
}
use omarchy_hackertyper.Catalog.Entries.{source_by_id_at, source_by_id-sources}
use omarchy_hackertyper.Catalog.{sources}
use omarchy_hackertyper.Panel.Choice.{option_at, source_of_option}
use omarchy_hackertyper.Panel.{Entry, entry_of, language_options}
use omarchy_hackertyper.Service.Listed.{Reach-IsListed}
use omarchy_hackertyper.Service.Loading.{Step, selects, Reach, here, next}
use omarchy_hackertyper.Service.Selection.{select_source-Selects}
use omarchy_hackertyper.Service.{Manifest, Service, new_service, select_source}
use omarchy_hackertyper.Sources.Choice.{source_at}
use omarchy_hackertyper.Sources.{Source}

pub record Dropdown : Type 0 where
  pub value : Text
  pub is_bound : Bool

abbrev pub bound_value : Option Service → Text
bound_value none = []
bound_value (some hacker) = hacker.selected_source_id

abbrev pub new_dropdown : Option Service → Dropdown
new_dropdown hacker = record { value = bound_value hacker; is_bound = true }

-- `onSelectedSourceIdChanged`: an assignment ends the binding.
abbrev pub on_selected_source_id_changed : Dropdown → Service → Dropdown
on_selected_source_id_changed d hacker = record {
  value = hacker.selected_source_id;
  is_bound = false;
}

-- The signal, where the service becomes another.
unfoldable pub followed : Dropdown → Service → Service → Dropdown
followed d before after =
    if text_eq before.selected_source_id after.selected_source_id
    then d
    else on_selected_source_id_changed d after

-- The list takes over the choice of an entry, or does not.
abbrev pub picked : Dropdown → Bool → Text → Dropdown
picked d takes id = if takes then record { value = id; is_bound = false } else d

pub record View : Type 0 where
  pub dropdown : Dropdown
  pub hacker : Service

abbrev IsShown : View → Type 0
IsShown v = v.dropdown.value ≡ v.hacker.selected_source_id

followed-IsShown :
    (d : Dropdown) (s t : Service)
    → d.value ≡ s.selected_source_id
    → IsShown (record { dropdown = followed d s t; hacker = t })
unfolding followed
followed-IsShown d s t h = elim (Bool-cases (text_eq s.selected_source_id t.selected_source_id)) [
  | inl e ↦ rw e (h ∙ (text_eq_iff s.selected_source_id t.selected_source_id).0 e)
  | inr e ↦ rw e refl
]

option_at-source_at :
    (list : List Source) (i : ℕ) (s : Source)
    → source_at list i ≡ some s
    → option_at (map entry_of list) i ≡ some (entry_of s)
option_at-source_at [] i s h = cc
option_at-source_at (x ∷ rest) zero s h = cc
option_at-source_at (x ∷ rest) (suc i) s h = option_at-source_at rest i s h

-- An entry of the list selects the source whose id it has.
entry-selects :
    (s : Service) (i : ℕ) (entry : Entry)
    → option_at (language_options (some s)) i ≡ some entry
    → (select_source s entry.value).0.selected_source_id ≡ entry.value
unfolding language_options
entry-selects s i entry h =
    let (t, at_i, same) = source_of_option sources i entry h in
    let found = source_by_id-sources i t at_i in
    let chosen = select_source-Selects s t.id t found in rw (← same) chosen.selected

module _ (files : Text → Option Text) where
  -- A choice in the list, or anything else that may happen to the service.
  pub data Turn (v : View) : View → Type 0 where
    chooses :
        (i : ℕ) (entry : Entry) (takes : Bool)
        → option_at (language_options (some v.hacker)) i ≡ some entry
        → Turn v (record {
          dropdown =
              followed
                (picked v.dropdown takes entry.value)
                v.hacker
                (select_source v.hacker entry.value).0;
          hacker = (select_source v.hacker entry.value).0;
        })
    serves :
        (s : Service)
        → Step files v.hacker s
        → Turn v (record { dropdown = followed v.dropdown v.hacker s; hacker = s })

  pub data Turns (v : View) : View → Type 0 where
    none_yet : Turns v v
    then_one : {u w : View} → Turns v u → Turn u w → Turns v w

  chosen-IsShown :
      (v : View) (i : ℕ) (entry : Entry) (takes : Bool)
      → option_at (language_options (some v.hacker)) i ≡ some entry
      → IsShown v
      → IsShown (record {
        dropdown =
            followed
              (picked v.dropdown takes entry.value)
              v.hacker
              (select_source v.hacker entry.value).0;
        hacker = (select_source v.hacker entry.value).0;
      })
  unfolding followed
  chosen-IsShown v i entry false h shown =
      followed-IsShown v.dropdown v.hacker (select_source v.hacker entry.value).0 shown
  chosen-IsShown v i entry true h shown =
      let after = (select_source v.hacker entry.value).0 in
      elim (Bool-cases (text_eq v.hacker.selected_source_id after.selected_source_id)) [
        | inl e ↦ rw e (sym (entry-selects v.hacker i entry h))
        | inr e ↦ rw e refl
      ]

  Turn-IsShown : {v w : View} → Turn v w → IsShown v → IsShown w
  Turn-IsShown {v} (chooses i entry takes h) shown = chosen-IsShown v i entry takes h shown
  Turn-IsShown {v} (serves s st) shown = followed-IsShown v.dropdown v.hacker s shown

  Turns-IsShown : {v w : View} → Turns v w → IsShown v → IsShown w
  Turns-IsShown none_yet shown = shown
  Turns-IsShown (then_one r t) shown = Turn-IsShown t (Turns-IsShown r shown)

  Turns-Reach : {v w : View} → Turns v w → Reach files v.hacker w.hacker
  Turns-Reach none_yet = here
  Turns-Reach (then_one {u} r (chooses i entry takes h)) =
      next (Turns-Reach r) (selects u.hacker entry.value)
  Turns-Reach (then_one r (serves s st)) = next (Turns-Reach r) st

  -- The list of languages, beside a new service, always shows the selected source: after any choices
  -- in it, which it may take over by itself or not, and any selections, loads and failed loads from
  -- elsewhere, in any order, its value is the selected id, and that is the value of one of its entries.
  pub Turns-shows :
      (has_shell : Bool) (manifest : Option Manifest) (home : Text) (v : View)
      → Turns
          (record {
            dropdown = new_dropdown (some (new_service has_shell manifest home));
            hacker = new_service has_shell manifest home;
          })
          v
      → (v.dropdown.value ≡ v.hacker.selected_source_id)
        × (i : ℕ) × (entry : Entry) × (option_at (language_options (some v.hacker)) i ≡ some entry)
        × (entry.value ≡ v.dropdown.value)
  unfolding language_options
  Turns-shows has_shell manifest home v r =
      let shown : IsShown v = Turns-IsShown r refl in
      let l = Reach-IsListed files has_shell manifest home v.hacker (Turns-Reach r) in
      let (i, at_i) = source_by_id_at v.hacker.selected_source_id l.source l.is_found in
      (
        shown,
        i,
        entry_of l.source,
        option_at-source_at sources i l.source at_i,
        l.same_id ∙ sym shown,
      )
