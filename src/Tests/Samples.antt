-- ===== src/Tests/Samples.antt =====
-- An engine, a theme, a service, a panel's surroundings and an overlay to run the program with.
use omarchy_hackertyper.Base.{
  zero, suc, ◌+◌, true, false, [], ◌∷◌, ◌++◌, Option, none, some, map, append-nil, append_assoc,
  ◌∙◌, text_eq, Text, codes, ◌≡◌, refl,
}
use native.Mathlib.Numerals.{add-one}
use omarchy_hackertyper.Catalog.{sources}
use omarchy_hackertyper.Markup.Painted.{IsColored}
use omarchy_hackertyper.Markup.Shown.{IsTheme}
use omarchy_hackertyper.Markup.{Theme}
use omarchy_hackertyper.Panel.{Desktop, screen_name}
use omarchy_hackertyper.Overlay.{Overlay, new_overlay, Key, KeyEvent}
use omarchy_hackertyper.Payload.{Engine, IsEngine, Json, object, field, end, text, launch_payload}
use omarchy_hackertyper.Service.{Service, Manifest, new_service, Summons, summons}
use omarchy_hackertyper.Sources.Choice.{source_at}
use omarchy_hackertyper.Sources.{Source}

abbrev pub key : Key → KeyEvent
key k = record { key = k; is_auto_repeat = false; native_scan_code = 0 }

abbrev pub shell_manifest : Manifest
shell_manifest = record { id = codes "codefriendly.hackertyper"; source_dir = codes "/plugins" }

abbrev pub service : Service
service = record (new_service true (some shell_manifest) (codes "/home/me")) {
  source_text = codes "int main() {\n\treturn a < b;\n}\n";
}

-- An open overlay, some characters in.
abbrev pub overlay : Overlay
overlay = record (new_overlay true (codes "codefriendly.hackertyper")) {
  opened = true;
  progress = 6;
}

abbrev pub theme : Theme
theme = record { foreground = codes "#ffffff"; muted = codes "#777777" }

pub theme-IsTheme : IsTheme theme
theme-IsTheme = record { foreground_in_tag = refl; muted_in_tag = refl }

pub theme-IsColored : IsColored theme
theme-IsColored = record { is_theme = theme-IsTheme; muted_unquoted = refl }

-- An engine that meets what is relied on: it writes a payload as its two texts.
abbrev write : Json → Text
write (object (field k (text a) (field l (text b) end))) = map (λ c. c + 1) a ++ 0 ∷ b
write _ = 1 ∷ []

abbrev read_from : Text → Text → Option Json
read_from done [] = none
read_from done (zero ∷ rest) = some (launch_payload done rest)
read_from done (suc c ∷ rest) = read_from (done ++ c ∷ []) rest

abbrev own_text : Json → Text
own_text (text t) = t
own_text _ = []

abbrev pub engine : Engine
engine = record { parse = read_from []; stringify = write; to_text = own_text }

read_from-write :
    (done a b : Text)
    → read_from done (map (λ c. c + 1) a ++ 0 ∷ b) ≡ some (launch_payload (done ++ a) b)
read_from-write done [] b = rw (append-nil done) refl
read_from-write done (c ∷ a) b =
    rw add-one (read_from-write (done ++ c ∷ []) a b ∙ rw (append_assoc done (c ∷ []) a) refl)

pub engine-IsEngine : IsEngine engine
engine-IsEngine = record {
  to_text_text = λ t. refl;
  parse_stringify = λ a b. read_from-write [] a b;
  stringify_nonempty = λ a b. nonempty a b;
}
  where
    nonempty : (a b : Text) → text_eq (map (λ c. c + 1) a ++ 0 ∷ b) (codes "") ≡ false
    nonempty [] b = refl
    nonempty (c ∷ a) b = refl

abbrev pub kernel_source : Source
kernel_source = record {
  id = codes "kernel-like";
  name = codes "Kernel";
  language = codes "C";
  description = codes "Event routing and scheduler internals.";
  file = codes "sources/kernel-like.c";
  license = codes "MIT";
  provenance = codes "Project-authored MIT source.";
}

pub kernel_at : source_at sources 0 ≡ some kernel_source
unfolding sources
kernel_at = refl

abbrev pub request : Summons
request = record {
  id = codes "codefriendly.hackertyper";
  payload = engine.stringify (launch_payload (codes "kernel-like") (codes "DP-1"));
}

-- No bar is known; the panel hangs on an item of the first screen.
abbrev pub desktop : Desktop
desktop = record {
  bar = none;
  anchor_item = some (record {
    qs_window = some (some (record { screen = some (record { name = codes "DP-1" }) }));
  });
}

pub requested : summons engine service (screen_name desktop) ≡ some request
unfolding summons screen_name
requested = refl
