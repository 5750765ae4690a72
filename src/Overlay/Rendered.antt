-- ===== src/Overlay/Rendered.antt =====
-- What the terminal shows.
use omarchy_hackertyper.Base.{
  Bool, true, false, ◌++◌, Option, none, some, Option-cases, Text, contains, take, ◌≡◌, refl, ap,
  ◌∙◌, inl, inr,
}
use omarchy_hackertyper.Catalog.Entries.{source_by_id_language}
use omarchy_hackertyper.Highlight.Config.{LangConfig, inherited_names}
use omarchy_hackertyper.Highlight.Lexer.{lex_text}
use omarchy_hackertyper.Highlight.Scanner.{Cache}
use omarchy_hackertyper.Highlight.Tokenize.Cached.{IsValid, Selected}
use omarchy_hackertyper.Markup.Painted.{
  IsColored, in_color, in_colors, painted-build_highlighted_markup,
}
use omarchy_hackertyper.Markup.Painter.{painted, painted_from}
use omarchy_hackertyper.Markup.Reader.{shown, shown_from}
use omarchy_hackertyper.Markup.Escape.{display}
use omarchy_hackertyper.Markup.Shown.{IsTheme, shown-build_highlighted_markup}
use omarchy_hackertyper.Markup.{Theme}
use omarchy_hackertyper.Overlay.{
  Overlay, source_text, source_language, cursor_text, rendered_markup,
}
use omarchy_hackertyper.Service.{Service, selected_source}

source_language_own :
    (service : Option Service) → contains inherited_names (source_language service) ≡ false
source_language_own none = refl
source_language_own (some s) = elim (Option-cases (selected_source s)) [
  | inl e ↦ rw e refl
  | inr (t, e) ↦ rw e (source_by_id_language s.selected_source_id t (unfold selected_source in e))
]

shown-cursor_text : (visible : Bool) → shown (cursor_text visible) ≡ cursor_text visible
unfolding shown_from
shown-cursor_text true = refl
shown-cursor_text false = refl

-- Whatever the state of the overlay and of the service, for a theme whose colours can stand in a
-- tag and any valid cache, the terminal's markup is built without an exception, the cache stays
-- valid, and what the markup shows is the typed part of the source, as far as the position, with
-- hard spaces for spaces and tabs, and the cursor behind it.
pub shown-rendered_markup :
    (theme : Theme) (cache : Cache) (o : Overlay) (service : Option Service)
    → IsTheme theme
    → IsValid cache
    → (markup : Text) × (later : Cache) × (rendered_markup theme cache o service
        ≡ some (markup, later))
      × (shown markup
          ≡ display (take o.progress (source_text service)) ++ cursor_text o.cursor_visible)
      × IsValid later
shown-rendered_markup theme cache o service t v =
    let typed = take o.progress (source_text service) in
    let (markup, later, e, same, v') =
      shown-build_highlighted_markup theme cache typed (source_language service)
        (cursor_text o.cursor_visible) t v (source_language_own service) in
    (
      markup ++ cursor_text o.cursor_visible,
      later,
      unfold rendered_markup in rw (e, rendered_markup) refl,
      same ∙ ap (◌++◌ (display typed)) (shown-cursor_text o.cursor_visible),
      v',
    )

painted-cursor_text :
    (visible : Bool) → painted (cursor_text visible) ≡ in_color none (cursor_text visible)
unfolding painted_from
painted-cursor_text true = refl
painted-cursor_text false = refl

-- Whatever the state of the overlay and of the service, for a theme whose colours can stand in a
-- quoted attribute and any valid cache, the terminal's markup is built, the cache stays valid, and
-- the markup shows the typed part of the source as the lexer without regular expressions cuts it
-- into tokens, for the configuration that the language of the source selects: keywords, strings,
-- numbers and comments each in the colour of their class, any other text, and the cursor behind
-- it, in the colour of the whole text, with hard spaces for spaces and tabs.
pub painted-rendered_markup :
    (theme : Theme) (cache : Cache) (o : Overlay) (service : Option Service)
    → IsColored theme
    → IsValid cache
    → (key : Text) × (cfg : LangConfig) × (markup : Text) × (later : Cache) × Selected
        (source_language service)
        key
        cfg
      × (rendered_markup theme cache o service ≡ some (markup, later))
      × (painted markup
          ≡ in_colors theme (lex_text cfg (take o.progress (source_text service)))
            ++ in_color none (cursor_text o.cursor_visible))
      × IsValid later
painted-rendered_markup theme cache o service t v =
    let typed = take o.progress (source_text service) in
    let (key, cfg, markup, later, selected, e, same, v') =
      painted-build_highlighted_markup theme cache typed (source_language service)
        (cursor_text o.cursor_visible) t v (source_language_own service) in
    (
      key,
      cfg,
      markup ++ cursor_text o.cursor_visible,
      later,
      selected,
      unfold rendered_markup in rw (e, rendered_markup) refl,
      same
          ∙ ap (◌++◌ (in_colors theme (lex_text cfg typed))) (painted-cursor_text o.cursor_visible),
      v',
    )
