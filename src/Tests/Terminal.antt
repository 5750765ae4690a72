-- ===== src/Tests/Terminal.antt =====
-- HackerTyper.qml: the markup, and the way from the panel's button to what is shown.
use omarchy_hackertyper.Base.{
  length, ◌*◌, true, false, List, [], ◌∷◌, ◌++◌, Option, none, some, Text, codes, take, ◌≡◌, refl,
}
use omarchy_hackertyper.Catalog.Entries.{source_by_id-sources}
use omarchy_hackertyper.Highlight.Scanner.{Cache, keyword, plain}
use omarchy_hackertyper.Highlight.Tokenize.Cached.{IsValid, empty-IsValid, Selected}
use omarchy_hackertyper.Highlight.Tokenize.{Token}
use omarchy_hackertyper.Highlight.Config.{LangConfig}
use omarchy_hackertyper.Highlight.Lexer.{lex_text}
use omarchy_hackertyper.Markup.Painted.{in_color, in_colors}
use omarchy_hackertyper.Markup.Painter.{painted, painted_from}
use omarchy_hackertyper.Markup.Reader.{shown}
use omarchy_hackertyper.Markup.Escape.{display}
use omarchy_hackertyper.Markup.{markup_of_tokens}
use omarchy_hackertyper.Overlay.Access.{press_all}
use omarchy_hackertyper.Panel.Launching.{IsLaunched, click_launch_lem}
use omarchy_hackertyper.Panel.{screen_name, new_panel}
use omarchy_hackertyper.Overlay.Rendered.{shown-rendered_markup, painted-rendered_markup}
use omarchy_hackertyper.Overlay.Typing.{stride}
use omarchy_hackertyper.Overlay.{
  source_text, source_language, cursor_text, rendered_markup, open_overlay, other, KeyEvent,
}
use omarchy_hackertyper.Service.{Service, new_service, summons}
use omarchy_hackertyper.Tests.Samples.{
  key, service, overlay, theme, theme-IsTheme, theme-IsColored, engine, engine-IsEngine,
  kernel_source, kernel_at, request, desktop, requested, shell_manifest,
}
use omarchy_hackertyper.Panel.Terminal.{Shows, clicked-Shows}
use omarchy_hackertyper.Prepare.{prepare_source}
use omarchy_hackertyper.Lines.{is_empty}
use omarchy_hackertyper.Service.{on_loaded}
use omarchy_hackertyper.Service.Loading.{
  Reach as ReachService, here as start, next as then_loads, loads,
}

shown-rendered_markup_example :
    (markup : Text) × (later : Cache) × (rendered_markup theme [] overlay (some service)
      ≡ some (markup, later))
    × (shown markup ≡ display (take 6 (source_text (some service))) ++ cursor_text true)
    × IsValid later
shown-rendered_markup_example =
    shown-rendered_markup theme [] overlay (some service) theme-IsTheme empty-IsValid

painted-rendered_markup_example :
    (key : Text) × (cfg : LangConfig) × (markup : Text) × (later : Cache) × Selected
      (source_language (some service))
      key
      cfg
    × (rendered_markup theme [] overlay (some service) ≡ some (markup, later))
    × (painted markup
        ≡ in_colors theme (lex_text cfg (take 6 (source_text (some service))))
          ++ in_color none (cursor_text true))
    × IsValid later
painted-rendered_markup_example =
    painted-rendered_markup theme [] overlay (some service) theme-IsColored empty-IsValid

abbrev two_tokens : List Token
two_tokens =
    record { type = keyword; text = codes "if" }
    ∷ record { type = plain; text = codes "(a<b)" }
    ∷ []

markup_runs : markup_of_tokens theme two_tokens ≡ codes "<font color=\"#c586c0\">if</font>(a&lt;b)"
unfolding markup_of_tokens
markup_runs = refl

painted_runs :
    painted (markup_of_tokens theme two_tokens)
    ≡ in_color (some (codes "#c586c0")) (codes "if") ++ in_color none (codes "(a<b)")
unfolding markup_of_tokens painted_from
painted_runs = refl

clicked : IsLaunched engine (λ q. true) new_panel service desktop overlay request
clicked =
    click_launch_lem engine (λ q. true) new_panel service desktop overlay kernel_source request
      engine-IsEngine refl (source_by_id-sources 0 kernel_source kernel_at) refl requested

abbrev file_text : Text
file_text = codes "// :: a note\nint main() {\n  return 42;\n}\n"

abbrev files : Text → Option Text
files path = some file_text

abbrev loaded_service : Service
loaded_service = on_loaded (new_service true (some shell_manifest) (codes "/home/me")) file_text

loaded_service-Reach :
    ReachService files (new_service true (some shell_manifest) (codes "/home/me")) loaded_service
loaded_service-Reach =
    then_loads start
      (loads (new_service true (some shell_manifest) (codes "/home/me")) file_text refl)

loaded_text : is_empty loaded_service.source_text ≡ false
unfolding on_loaded prepare_source
loaded_text = refl

loaded_request : summons engine loaded_service (screen_name desktop) ≡ some request
unfolding summons screen_name on_loaded
loaded_request = refl

abbrev letters : List KeyEvent
letters = key (other 65) ∷ key (other 66) ∷ key (other 67) ∷ key (other 68) ∷ []

clicked-Shows_example :
    IsLaunched engine (λ q. true) new_panel loaded_service desktop overlay request
    × Shows files theme [] loaded_service
        (press_all
          (open_overlay engine overlay (some loaded_service) request.payload).0
          (length loaded_service.source_text)
          letters)
        (4 * stride overlay)
clicked-Shows_example =
    clicked-Shows files theme [] theme-IsColored empty-IsValid engine (λ q. true) true
      (some shell_manifest) (codes "/home/me") new_panel loaded_service desktop overlay request
      letters engine-IsEngine loaded_service-Reach loaded_text loaded_request refl
