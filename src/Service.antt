-- ===== src/Service.antt =====
-- Service.qml: the selected source, its text as far as it is loaded, and the calls from outside.
-- The shell and the file view are the desktop's: a request to the shell is a value, its answer an
-- argument, and the signals of the file view are operations.
pub mod Selection
pub mod Loading
pub mod Listed
use omarchy_hackertyper.Base.{
  ℕ, Bool, true, false, not, ◌&&◌, ◌||◌, List, [], ◌∷◌, ◌++◌, Option, none, some, if◌then◌else◌,
  Text, codes, text_eq, length, take,
}
use omarchy_hackertyper.Catalog.{sources}
use omarchy_hackertyper.Lines.{is_empty}
use omarchy_hackertyper.Number.{number}
use omarchy_hackertyper.Payload.{Engine, launch_payload}
use omarchy_hackertyper.Prepare.{prepare_source}
use omarchy_hackertyper.Preview.{preview}
use omarchy_hackertyper.Sources.{Source, source_by_id}

-- `__sourceDir` is empty where the manifest has none.
pub record Manifest : Type 0 where
  pub id : Text
  pub source_dir : Text

pub record Service : Type 0 where
  pub has_shell : Bool
  pub manifest : Option Manifest
  -- `Quickshell.env("HOME")`
  pub home : Text
  pub selected_source_id : Text
  pub source_text : Text
  pub source_error : Text

abbrev pub new_service : Bool → Option Manifest → Text → Service
new_service has_shell manifest home = record {
  has_shell = has_shell;
  manifest = manifest;
  home = home;
  selected_source_id = codes "kernel-like";
  source_text = [];
  source_error = [];
}

unfoldable pub selected_source : Service → Option Source
unfolding sources source_by_id
selected_source s = source_by_id sources s.selected_source_id

abbrev default_dir : Service → Text
default_dir s = s.home ++ codes "/.config/omarchy/plugins/codefriendly.hackertyper"

unfoldable pub source_dir : Service → Text
source_dir s = elim s.manifest [
  | none ↦ default_dir s
  | some m ↦ if is_empty m.source_dir then default_dir s else m.source_dir
]

abbrev pub path_in : Text → Option Source → Text
path_in dir none = []
path_in dir (some source) = if is_empty dir then [] else dir ++ codes "/" ++ source.file

unfoldable pub selected_source_path : Service → Text
unfolding source_dir selected_source
selected_source_path s = path_in (source_dir s) (selected_source s)

-- `selectSource` on the source that the lookup gave.
abbrev pub select_found : Service → Option Source → Service × Bool
select_found s none = (s, false)
select_found s (some source) =
    if text_eq s.selected_source_id source.id
    then (s, true)
    else (record s { source_text = []; source_error = []; selected_source_id = source.id }, true)

unfoldable pub select_source : Service → Text → Service × Bool
unfolding sources source_by_id
select_source s source_id = select_found s (source_by_id sources source_id)

unfoldable pub source_preview : Service → Text
unfolding preview
source_preview s = preview s.source_text (number 5) (number 360)

-- The arguments of `shell.summon`; `none` where the shell or the manifest is missing.
pub record Summons : Type 0 where
  pub id : Text
  pub payload : Text

unfoldable pub summons : Engine → Service → Text → Option Summons
summons e s screen_name = elim s.manifest [
  | none ↦ none
  | some m ↦
      if s.has_shell
      then some (record {
        id = m.id;
        payload = e.stringify (launch_payload s.selected_source_id screen_name);
      })
      else none
]

-- `launch`, where `summon` answers for the shell.
unfoldable pub launch : Engine → (Summons → Bool) → Service → Text → Bool
unfolding summons
launch e summon s screen_name = elim (summons e s screen_name) [ none ↦ false | some q ↦ summon q ]

pub record Status : Type 0 where
  pub selected_source_id : Text
  pub selected_source : Text
  pub loaded : Bool
  pub preview : Text
  pub error : Text

abbrev pub name_or : Text → Option Source → Text
name_or other none = other
name_or other (some source) = source.name

unfoldable pub status_object : Service → Status
status_object s = record {
  selected_source_id = s.selected_source_id;
  selected_source = name_or [] (selected_source s);
  loaded = not (is_empty s.source_text);
  preview = take 80 s.source_text;
  error = s.source_error;
}

-- `onLoaded` and `onLoadFailed` of the file view.
unfoldable pub on_loaded : Service → Text → Service
unfolding prepare_source
on_loaded s contents = record s { source_text = prepare_source contents; source_error = [] }

unfoldable pub on_load_failed : Service → Service
unfolding selected_source
on_load_failed s = record s {
  source_text = [];
  source_error = codes "Could not load " ++ name_or (codes "source") (selected_source s);
}

-- The handlers of the command line.
pub data Reply : Type 0 where
  ok unavailable unknown_source : Reply

abbrev launched : Bool → Reply
launched true = ok
launched false = unavailable

unfoldable pub ipc_launch : Engine → (Summons → Bool) → Service → Text → Text → Service × Reply
unfolding select_source launch
ipc_launch e summon s source_id screen_name =
    if is_empty source_id
    then (s, launched (launch e summon s screen_name))
    else let (s', selected) = select_source s source_id in
      if not selected then (s', unknown_source) else (s', launched (launch e summon s' screen_name))

unfoldable pub ipc_select : Service → Text → Service × Reply
unfolding select_source
ipc_select s source_id =
    let (s', selected) = select_source s source_id in
    (s', (if selected then ok else unknown_source))
