-- ===== src/Panel/Terminal.antt =====
-- From the file of a source, by the panel's button, to what the terminal shows after some keys.
use omarchy_hackertyper.Base.{
  ℕ, zero, suc, ◌+◌, ◌*◌, min, Bool, true, false, List, [], ◌∷◌, ◌++◌, Option, none, some, Text,
  all, length, take, ◌≡◌, ◌⊎◌, refl, subst, ap, ◌∙◌, arith, inl, inr,
}
use omarchy_hackertyper.Catalog.{sources}
use omarchy_hackertyper.Highlight.Config.{LangConfig}
use omarchy_hackertyper.Highlight.Lexer.{lex_text}
use omarchy_hackertyper.Highlight.Scanner.{Cache}
use omarchy_hackertyper.Highlight.Tokenize.Cached.{IsValid, Selected}
use omarchy_hackertyper.Lines.{is_empty}
use omarchy_hackertyper.Markup.Painted.{IsColored, in_color, in_colors}
use omarchy_hackertyper.Markup.Painter.{painted}
use omarchy_hackertyper.Markup.{Theme}
use omarchy_hackertyper.Overlay.Access.{press_all}
use omarchy_hackertyper.Overlay.Launching.{opened_on}
use omarchy_hackertyper.Overlay.Rendered.{painted-rendered_markup}
use omarchy_hackertyper.Overlay.Typing.{types_forward, stride, press_all-types_forward}
use omarchy_hackertyper.Overlay.{
  Overlay, KeyEvent, cursor_text, source_language, language_of, rendered_markup, open_overlay,
  handle_key,
}
use omarchy_hackertyper.Panel.Launching.{IsLaunched, click_launch_lem}
use omarchy_hackertyper.Panel.{Panel, Desktop, screen_name}
use omarchy_hackertyper.Payload.{Engine, IsEngine}
use omarchy_hackertyper.Prepare.{prepare_source}
use omarchy_hackertyper.Service.Listed.{IsListed, Reach-IsListed}
use omarchy_hackertyper.Service.Loading.{Reach, Reach-IsFaithful}
use omarchy_hackertyper.Service.{
  Manifest, Service, new_service, selected_source, selected_source_path, Summons, summons,
}
use omarchy_hackertyper.Sources.{Source, source_by_id}

handle_key-cursor_visible :
    (o : Overlay) (size : ℕ) (k : KeyEvent)
    → types_forward k ≡ true
    → (handle_key o size k).overlay.cursor_visible ≡ true
unfolding handle_key
handle_key-cursor_visible o size k h = ground arith

press_all-cursor_visible :
    (o : Overlay) (size : ℕ) (ks : List KeyEvent)
    → o.cursor_visible ≡ true
    → all types_forward ks ≡ true
    → (press_all o size ks).cursor_visible ≡ true
unfolding press_all
press_all-cursor_visible o size [] v h = v
press_all-cursor_visible o size (k ∷ ks) v h =
    press_all-cursor_visible (handle_key o size k).overlay size ks
      (handle_key-cursor_visible o size k (ground arith)) (ground arith)

take-min : (n : ℕ) (t : Text) → take (min n (length t)) t ≡ take n t
take-min zero t = let e : min 0 (length t) ≡ 0 = omega arith in rw e refl
take-min (suc n) [] = let e : min (suc n) 0 ≡ 0 = omega arith in rw e refl
take-min (suc n) (x ∷ t) =
    let e : min (suc n) (suc (length t)) ≡ suc (min n (length t)) = omega arith in
    rw e (ap (◌∷◌ x) (take-min n t))

-- What the terminal shows: the beginning of the prepared file of the selected source, `size` code units
-- of it, in the colours of the tokens that the lexer for its language finds there, and the cursor.
pub record Shows (files : Text → Option Text) (theme : Theme) (cache : Cache) (s : Service)
    (o : Overlay) (size : ℕ) : Type 0 where
  pub source : Source
  pub is_found : source_by_id sources s.selected_source_id ≡ some source
  pub same_id : source.id ≡ s.selected_source_id
  pub contents : Text
  pub of_file : files (selected_source_path s) ≡ some contents
  pub key : Text
  pub cfg : LangConfig
  pub selected : Selected source.language key cfg
  pub markup : Text
  pub later : Cache
  pub renders : rendered_markup theme cache o (some s) ≡ some (markup, later)
  pub shows :
      painted markup
      ≡ in_colors theme (lex_text cfg (take size (prepare_source contents)))
        ++ in_color none (cursor_text true)

selected_source-found :
    (s : Service) (source : Source)
    → source_by_id sources s.selected_source_id ≡ some source
    → selected_source s ≡ some source
unfolding selected_source
selected_source-found s source h = h

module _ (files : Text → Option Text) (theme : Theme) (cache : Cache) (t : IsColored theme)
    (v : IsValid cache) where
  Shows-rendered :
      (s : Service) (o : Overlay) (size : ℕ) (contents : Text)
      → IsListed s.selected_source_id
      → files (selected_source_path s) ≡ some contents
      → s.source_text ≡ prepare_source contents
      → o.progress ≡ min size (length s.source_text)
      → o.cursor_visible ≡ true
      → Shows files theme cache s o size
  Shows-rendered s o size contents l f same at visible =
      let (key, cfg, markup, later, selected, e, seen, _) =
        painted-rendered_markup theme cache o (some s) t v in
      let language : source_language (some s) ≡ l.source.language =
        ap language_of (selected_source-found s l.source l.is_found) in
      let typed : take o.progress s.source_text ≡ take size (prepare_source contents) =
        ap (λ n. take n s.source_text) at ∙ take-min size s.source_text ∙ ap (take size) same in
      let shown_typed =
        λ (c : LangConfig). in_colors theme (lex_text c (take o.progress s.source_text)) in
      record {
        source = l.source;
        is_found = l.is_found;
        same_id = l.same_id;
        contents = contents;
        of_file = f;
        key = key;
        cfg = cfg;
        selected = subst (λ u. Selected u key cfg) language selected;
        markup = markup;
        later = later;
        renders = e;
        shows =
            rw (← typed)
              (seen ∙ ap (λ c. shown_typed cfg ++ in_color none (cursor_text c)) visible);
      }

  -- For a service that any selections, loads and failed loads lead to, with a text, a shell and a
  -- manifest to ask with, an engine that reads back what it writes, a theme whose colours can
  -- stand in a quoted attribute, and a valid cache: a click on the panel's button closes the panel
  -- and, when the timer ends, asks the shell; and in the terminal that is opened by what the shell
  -- is handed, n typing keys show the first n times the characters per key (at least one) code
  -- units of the prepared file of the selected source, or all of it, in the colours of the tokens
  -- that the lexer finds there for the language of that source, with hard spaces for spaces and
  -- tabs, and the cursor behind them.
  pub clicked-Shows :
      (e : Engine) (summon : Summons → Bool) (has_shell : Bool) (manifest : Option Manifest)
      (home : Text) (p : Panel) (s : Service) (d : Desktop) (o : Overlay) (q : Summons)
      (ks : List KeyEvent)
      → IsEngine e
      → Reach files (new_service has_shell manifest home) s
      → is_empty s.source_text ≡ false
      → summons e s (screen_name d) ≡ some q
      → all types_forward ks ≡ true
      → IsLaunched e summon p s d o q
        × Shows files theme cache s
            (press_all (open_overlay e o (some s) q.payload).0 (length s.source_text) ks)
            (length ks * stride o)
  clicked-Shows e summon has_shell manifest home p s d o q ks w r loaded h typing =
      let l = Reach-IsListed files has_shell manifest home s r in
      let launched = click_launch_lem e summon p s d o l.source q w loaded l.is_found l.same_id h in
      let fresh = opened_on o (screen_name d) in
      let opened : (open_overlay e o (some s) q.payload).0 ≡ fresh = ap (λ a. a.0) launched.opens in
      let size = length s.source_text in
      let at : (press_all fresh size ks).progress ≡ min (length ks * stride o) size =
        press_all-types_forward fresh size ks (omega arith) typing
        ∙ ap (λ n. min n size) (add-zero (length ks * stride o)) in
      let visible = press_all-cursor_visible fresh size ks refl typing in
      let shown =
        shown_by (press_all fresh size ks) (length ks * stride o) l at visible
          (Reach-IsFaithful files has_shell manifest home s r).of_file in
      (launched, rw opened shown)
    where
      add-zero : (n : ℕ) → 0 + n ≡ n
      add-zero n = omega arith

      shown_by :
          (o' : Overlay) (n : ℕ)
          → IsListed s.selected_source_id
          → o'.progress ≡ min n (length s.source_text)
          → o'.cursor_visible ≡ true
          → (s.source_text ≡ [])
            ⊎ ((contents : Text) × (files (selected_source_path s) ≡ some contents)
                × (s.source_text ≡ prepare_source contents))
          → Shows files theme cache s o' n
      shown_by o' n l at visible (inl none_yet) = absurd (ground (arith, rw none_yet at loaded))
      shown_by o' n l at visible (inr (contents, f, same)) =
          Shows-rendered s o' n contents l f same at visible
