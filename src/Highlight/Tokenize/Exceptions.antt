-- ===== src/Highlight/Tokenize/Exceptions.antt =====
-- SyntaxHighlight.js: `tokenize` after other calls of it, and the calls that end in an exception.
use omarchy_hackertyper.Base.{
  true, List, [], ◌∷◌, none, some, Bool-cases, Text, contains, text_eq, text_eq_iff, ◌≡◌, refl, ap,
  ◌∙◌, inl, inr, ◌↔◌,
}
use omarchy_hackertyper.Highlight.Config.{LangConfig, inherited_names, Property, inherited}
use omarchy_hackertyper.Highlight.Languages.{languages}
use omarchy_hackertyper.Highlight.Scanner.{Cache, scanner_for}
use omarchy_hackertyper.Highlight.Tokenize.Cached.{
  IsValid, empty-IsValid, NoneInherited, empty-NoneInherited, tokenize-Tokenized, tokenize_selected,
  tokenize_lem,
}
use omarchy_hackertyper.Highlight.Tokenize.{config_of, select_config, scan_selected, tokenize}

-- The cache after a call; one that ends in an exception leaves it as it is.
unfoldable pub call : Cache → Text × Text → Cache
unfolding tokenize
call cache (text, language) = elim (tokenize cache text language) [
  | none ↦ cache
  | some (tokens, later) ↦ later
]

-- The cache after calls of `tokenize`, each with a text and a language, from the first.
unfoldable pub call_all : Cache → List (Text × Text) → Cache
unfolding call
call_all cache [] = cache
call_all cache (c ∷ cs) = call_all (call cache c) cs

abbrev AllUnlisted : List Text → Type 0
AllUnlisted [] = Unit
AllUnlisted (t ∷ ts) = (config_of t languages ≡ none) × AllUnlisted ts

inherited_names-unlisted : AllUnlisted inherited_names
unfolding config_of languages
inherited_names-unlisted = (
  refl,
  (refl, (refl, (refl, (refl, (refl, (refl, (refl, (refl, (refl, (refl, (refl, tt))))))))))),
)

unlisted :
    (names : List Text) (language : Text)
    → AllUnlisted names
    → contains names language ≡ true
    → config_of language languages ≡ none
unlisted [] language a h = cc
unlisted (t ∷ ts) language a h = elim (Bool-cases (text_eq t language)) [
  | inl e ↦ rw (← (text_eq_iff t language).0 e) a.0
  | inr e ↦ unlisted ts language a.1 (rw e at h)
]

inherited-scanner_for :
    (cache : Cache) (key : Text) (cfg : Property LangConfig)
    → NoneInherited cache
    → contains inherited_names key ≡ true
    → scanner_for cache key cfg ≡ some (inherited, cache)
unfolding scanner_for
inherited-scanner_for cache key cfg n h = rw (n.absent key h, scanner_for, h) refl

inherited-select_config :
    (language : Text)
    → contains inherited_names language ≡ true
    → select_config language ≡ (language, inherited)
unfolding select_config
inherited-select_config language h =
    rw (unlisted inherited_names language inherited_names-unlisted h, select_config, h) refl

inherited-tokenize :
    (cache : Cache) (text language : Text)
    → NoneInherited cache
    → contains inherited_names language ≡ true
    → tokenize cache text language ≡ none
unfolding scan_selected
inherited-tokenize cache text language n h =
    tokenize_lem cache text language
    ∙ ap (tokenize_selected cache text) (inherited-select_config language h)
    ∙ rw (tokenize_selected, inherited-scanner_for cache language inherited n h) refl

record IsSound (cache : Cache) : Type 0 where
  valid : IsValid cache
  none_inherited : NoneInherited cache

call-IsSound : (cache : Cache) (c : Text × Text) → IsSound cache → IsSound (call cache c)
unfolding call
call-IsSound cache (text, language) s = elim (Bool-cases (contains inherited_names language)) [
  | inl e ↦ rw (call, inherited-tokenize cache text language s.none_inherited e) s
  | inr e ↦
      let t = tokenize-Tokenized cache text language s.valid e in
      rw (call, t.returns)
        record { valid = t.still_valid; none_inherited = t.none_inherited s.none_inherited }
]

call_all-IsSound :
    (cs : List (Text × Text)) (cache : Cache) → IsSound cache → IsSound (call_all cache cs)
unfolding call_all
call_all-IsSound [] cache s = s
call_all-IsSound (c ∷ cs) cache s = call_all-IsSound cs (call cache c) (call-IsSound cache c s)

-- After any calls of `tokenize` from an empty cache, a call ends in an exception if the language is a
-- name that every object inherits, such as `constructor`, and only then.
pub tokenize_throws :
    (calls : List (Text × Text)) (text language : Text)
    → (tokenize (call_all [] calls) text language ≡ none)
      ↔ (contains inherited_names language ≡ true)
tokenize_throws calls text language =
    let s =
      call_all-IsSound calls []
        (record { valid = empty-IsValid; none_inherited = empty-NoneInherited }) in
    (
      λ e. elim (Bool-cases (contains inherited_names language)) [
        | inl h ↦ h
        | inr h ↦
            let t = tokenize-Tokenized (call_all [] calls) text language s.valid h in
            let r = t.returns in cc
      ],
      λ h. inherited-tokenize (call_all [] calls) text language s.none_inherited h,
    )
