-- ===== src/Service/Selection.antt =====
-- Selecting a source, from the panel, the overlay and the command line.
use omarchy_hackertyper.Base.{
  Bool, true, false, List, [], ◌∷◌, ◌++◌, some, Bool-cases, Text, text_eq, text_eq_iff, codes, all,
  ◌≡◌, ◌≢◌, refl, subst, ◌∙◌, inl, inr, arith,
}
use omarchy_hackertyper.Catalog.{sources}
use omarchy_hackertyper.Lines.{is_empty}
use omarchy_hackertyper.Payload.{Engine}
use omarchy_hackertyper.Service.{
  Service, Summons, select_found, select_source, launch, ok, unknown_source, launched, ipc_launch,
  ipc_select,
}
use omarchy_hackertyper.Sources.Choice.{
  other_than, Picks, found, fallback, empty, source_by_id-Picks,
}
use omarchy_hackertyper.Sources.{Source, source_by_id}

sources-ne-nil : sources ≢ []
unfolding sources
sources-ne-nil e = cc

-- The catalog is not empty, so a lookup in it always gives a source.
pub source_by_id_found : (id : Text) → (s : Source) × (source_by_id sources id ≡ some s)
source_by_id_found id = go (source_by_id-Picks sources id)
  where
    go :
        Picks sources id (source_by_id sources id)
        → (s : Source) × (source_by_id sources id ≡ some s)
    go (found _ s _ _ _ _ e) = (s, e)
    go (fallback s _ _ _ e) = (s, e)
    go (empty e _) = absurd (sources-ne-nil e)

-- The service after a selection of the source `t`.
pub record Selects (s : Service) (t : Source) (result : Service × Bool) : Type 0 where
  pub succeeds : result.1 ≡ true
  pub selected : result.0.selected_source_id ≡ t.id
  -- A text is kept for the same source, and dropped for another.
  pub keeps : s.selected_source_id ≡ t.id → result.0 ≡ s
  pub drops :
      s.selected_source_id ≢ t.id → (result.0.source_text ≡ []) × (result.0.source_error ≡ [])

select_found-Selects : (s : Service) (t : Source) → Selects s t (select_found s (some t))
select_found-Selects s t = elim (Bool-cases (text_eq s.selected_source_id t.id)) [
  | inl e ↦
      let same : s.selected_source_id ≡ t.id = (text_eq_iff s.selected_source_id t.id).0 e in
      rw e (record {
        succeeds = refl;
        selected = same;
        keeps = λ _. refl;
        drops = λ n. absurd (n same);
      })
  | inr e ↦ rw e (record {
    succeeds = refl;
    selected = refl;
    keeps = λ h. absurd (go h e);
    drops = λ _. (refl, refl);
  })
]
  where
    go : s.selected_source_id ≡ t.id → text_eq s.selected_source_id t.id ≡ false → ⊥
    go h n = ground (arith, (text_eq_iff s.selected_source_id t.id).1 h)

-- What a selection does with the source that the lookup gives.
pub select_source-Selects :
    (s : Service) (id : Text) (t : Source)
    → source_by_id sources id ≡ some t
    → Selects s t (select_source s id)
unfolding select_source
select_source-Selects s id t h = rw (h, select_source) (select_found-Selects s t)

-- The source that an id stands for: the first of the catalog with that id, or the first of all where
-- none has it; and what the selection of it does.
pub record SelectsOne (s : Service) (id : Text) (result : Service × Bool) : Type 0 where
  pub source : Source
  pub picks : Picks sources id (some source)
  pub selects : Selects s source result

-- For every service and every id, known or not, `selectSource` succeeds, and selects the first source of
-- the catalog with that id or, where no source has it, the first of the catalog. It keeps the whole
-- state if that source is selected already, and drops the text and the error if it is not.
pub select_source-SelectsOne : (s : Service) (id : Text) → SelectsOne s id (select_source s id)
select_source-SelectsOne s id =
    let (t, e) = source_by_id_found id in
    record {
      source = t;
      picks = subst (Picks sources id) e (source_by_id-Picks sources id);
      selects = select_source-Selects s id t e;
    }

pub select_source-true : (s : Service) (id : Text) → (select_source s id).1 ≡ true
select_source-true s id =
    let (t, e) = source_by_id_found id in (select_source-Selects s id t e).succeeds

-- The command line's `select` answers "ok" to every id: "unknown-source" is never given.
pub ipc_select_ok : (s : Service) (id : Text) → (ipc_select s id).1 ≡ ok
unfolding ipc_select
ipc_select_ok s id = rw (select_source-true s id) refl

-- The command line's `launch` never answers "unknown-source", for any engine, shell, id and
-- screen name.
pub ipc_launch_known :
    (e : Engine) (summon : Summons → Bool) (s : Service) (id screen_name : Text)
    → (ipc_launch e summon s id screen_name).1 ≢ unknown_source
unfolding ipc_launch
ipc_launch_known e summon s id screen_name = elim (Bool-cases (is_empty id)) [
  | inl b ↦ rw b (answers (launch e summon s screen_name))
  | inr b ↦
      rw (b, select_source-true s id) (answers (launch e summon (select_source s id).0 screen_name))
]
  where
    answers : (b : Bool) → launched b ≢ unknown_source
    answers true h = cc
    answers false h = cc

-- An id that no source has selects the first source of the catalog.
pub select_source_unknown :
    (s : Service) (id : Text)
    → all (other_than id) sources ≡ true
    → (select_source s id).0.selected_source_id ≡ codes "kernel-like"
select_source_unknown s id h =
    let (t, e) = source_by_id_found id in
    (select_source-Selects s id t e).selected ∙ first t e (source_by_id-Picks sources id)
  where
    middle :
        (before after : List Source) (u : Source)
        → all (other_than id) (before ++ u ∷ after) ≡ true
        → other_than id u ≡ true
    middle [] after u a = ground arith
    middle (x ∷ before) after u a = middle before after u (ground arith)

    first :
        (t : Source)
        → source_by_id sources id ≡ some t
        → Picks sources id (source_by_id sources id)
        → t.id ≡ codes "kernel-like"
    first t e (found before u after splits _ same _) =
        absurd
          (ground (arith, middle before after u (rw splits at h), (text_eq_iff u.id id).1 same))
    first t e (fallback u rest splits _ same) = unfold sources in ground arith
    first t e (empty none_left _) = absurd (sources-ne-nil none_left)
