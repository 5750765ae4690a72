-- ===== src/Service/Loading.antt =====
-- Loading and selecting, interleaved: the service never shows the text of another source. The files
-- are a parameter: what stands at a path, or nothing that can be read. The file view is taken to
-- signal for the path that is bound to it.
use omarchy_hackertyper.Base.{
  Bool, false, [], Option, none, some, Bool-cases, Text, text_eq, text_eq_iff, ◌≡◌, ◌≢◌, ◌⊎◌, refl,
  inl, inr, arith,
}
use omarchy_hackertyper.Prepare.{prepare_source}
use omarchy_hackertyper.Service.Selection.{select_source-Selects, source_by_id_found}
use omarchy_hackertyper.Service.{
  Manifest, Service, new_service, selected_source_path, select_source, on_loaded, on_load_failed,
}
use omarchy_hackertyper.Sources.{Source}

module _ (files : Text → Option Text) where
  -- What may happen to the service, in any order.
  pub data Step : Service → Service → Type 0 where
    selects : (s : Service) (id : Text) → Step s (select_source s id).0
    loads :
        (s : Service) (contents : Text)
        → files (selected_source_path s) ≡ some contents
        → Step s (on_loaded s contents)
    fails : (s : Service) → files (selected_source_path s) ≡ none → Step s (on_load_failed s)

  pub data Reach (s : Service) : Service → Type 0 where
    here : Reach s s
    next : {t u : Service} → Reach s t → Step t u → Reach s u

  -- The text is that of the selected file, prepared, or nothing is loaded; and there is no error
  -- beside a text.
  pub record IsFaithful (s : Service) : Type 0 where
    pub of_file :
        (s.source_text ≡ [])
        ⊎ ((contents : Text) × (files (selected_source_path s) ≡ some contents)
            × (s.source_text ≡ prepare_source contents))
    pub no_error : (s.source_text ≡ []) ⊎ (s.source_error ≡ [])

  on_loaded_path :
      (s : Service) (c : Text) → selected_source_path (on_loaded s c) ≡ selected_source_path s
  unfolding selected_source_path on_loaded
  on_loaded_path s c = refl

  loaded-IsFaithful :
      (s : Service) (contents : Text)
      → files (selected_source_path s) ≡ some contents
      → IsFaithful (on_loaded s contents)
  loaded-IsFaithful s contents h = record {
    of_file = inr (contents, rw (on_loaded_path s contents) h, unfold on_loaded in refl);
    no_error = unfold on_loaded in inr refl;
  }

  failed-IsFaithful : (s : Service) → IsFaithful (on_load_failed s)
  unfolding on_load_failed
  failed-IsFaithful s = record { of_file = inl refl; no_error = inl refl }

  selected-IsFaithful : (s : Service) (id : Text) → IsFaithful s → IsFaithful (select_source s id).0
  selected-IsFaithful s id v =
      let (t, e) = source_by_id_found id in
      let r = select_source-Selects s id t e in
      elim (Bool-cases (text_eq s.selected_source_id t.id)) [
        | inl b ↦ rw (r.keeps ((text_eq_iff s.selected_source_id t.id).0 b)) v
        | inr b ↦
            let (no_text, _) = r.drops (differs t b) in
            record { of_file = inl no_text; no_error = inl no_text }
      ]
    where
      differs :
          (t : Source) → text_eq s.selected_source_id t.id ≡ false → s.selected_source_id ≢ t.id
      differs t b h = ground (arith, (text_eq_iff s.selected_source_id t.id).1 h)

  pub Step-IsFaithful : {s t : Service} → Step s t → IsFaithful s → IsFaithful t
  Step-IsFaithful (selects s id) v = selected-IsFaithful s id v
  Step-IsFaithful (loads s contents h) v = loaded-IsFaithful s contents h
  Step-IsFaithful (fails s h) v = failed-IsFaithful s

  pub new_service-IsFaithful :
      (has_shell : Bool) (manifest : Option Manifest) (home : Text)
      → IsFaithful (new_service has_shell manifest home)
  new_service-IsFaithful has_shell manifest home = record {
    of_file = inl refl;
    no_error = inl refl;
  }

  -- After any sequence of selections, loads and failed loads from a new service, in any order, the
  -- text is the prepared text of the file of the selected source, or empty, and where there is a
  -- text there is no error.
  pub Reach-IsFaithful :
      (has_shell : Bool) (manifest : Option Manifest) (home : Text) (s : Service)
      → Reach (new_service has_shell manifest home) s
      → IsFaithful s
  Reach-IsFaithful has_shell manifest home s r =
      go (new_service-IsFaithful has_shell manifest home) r
    where
      go : {t u : Service} → IsFaithful t → Reach t u → IsFaithful u
      go v here = v
      go v (next q st) = Step-IsFaithful st (go v q)
