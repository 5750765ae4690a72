-- ===== src/Service/Listed.antt =====
-- The selected id is always one of the catalog's.
use omarchy_hackertyper.Base.{Bool, Option, some, Text, codes, ◌≡◌, refl}
use omarchy_hackertyper.Catalog.Entries.{source_by_id_again}
use omarchy_hackertyper.Catalog.{sources}
use omarchy_hackertyper.Service.Loading.{Step, selects, loads, fails, Reach, here, next}
use omarchy_hackertyper.Service.Selection.{select_source-Selects, source_by_id_found}
use omarchy_hackertyper.Service.{
  Manifest, Service, new_service, select_source, on_loaded, on_load_failed,
}
use omarchy_hackertyper.Sources.{Source, find_source, source_by_id}

pub record IsListed (id : Text) : Type 0 where
  pub source : Source
  pub is_found : source_by_id sources id ≡ some source
  pub same_id : source.id ≡ id

listed : (source : Source) → source_by_id sources source.id ≡ some source → IsListed source.id
listed source e = record { source = source; is_found = e; same_id = refl }

selected-IsListed : (s : Service) (id : Text) → IsListed (select_source s id).0.selected_source_id
selected-IsListed s id =
    let (t, e) = source_by_id_found id in
    let r = select_source-Selects s id t e in rw r.selected (listed t (source_by_id_again id t e))

module _ (files : Text → Option Text) where
  Step-IsListed :
      {s t : Service}
      → Step files s t
      → IsListed s.selected_source_id
      → IsListed t.selected_source_id
  unfolding on_loaded on_load_failed
  Step-IsListed (selects s id) v = selected-IsListed s id
  Step-IsListed (loads s contents h) v = v
  Step-IsListed (fails s h) v = v

  pub Reach-IsListed :
      (has_shell : Bool) (manifest : Option Manifest) (home : Text) (s : Service)
      → Reach files (new_service has_shell manifest home) s
      → IsListed s.selected_source_id
  unfolding select_source sources source_by_id find_source
  Reach-IsListed has_shell manifest home s here =
      selected-IsListed (new_service has_shell manifest home) (codes "kernel-like")
  Reach-IsListed has_shell manifest home s (next r st) =
      Step-IsListed st (Reach-IsListed has_shell manifest home _ r)
