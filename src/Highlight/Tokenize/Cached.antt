-- ===== src/Highlight/Tokenize/Cached.antt =====
-- The cache of scanners, and `tokenize` as a whole.
use omarchy_hackertyper.Base.{
  true, false, List, [], ◌∷◌, Option, none, some, Option-cases, Bool-cases, Text, codes, contains,
  text_eq, text_eq_iff, ◌≡◌, refl, ap, ◌∙◌, inl, inr,
}
use omarchy_hackertyper.Highlight.Config.{LangConfig, inherited_names, Property, own_value}
use omarchy_hackertyper.Highlight.Languages.{languages, fallback}
use omarchy_hackertyper.Highlight.Regex.{Regex}
use omarchy_hackertyper.Highlight.Scanner.Compile.{scanner}
use omarchy_hackertyper.Highlight.Scanner.Reading.{build_scanner_lem}
use omarchy_hackertyper.Highlight.Scanner.{Cache, cached, scanner_for}
use omarchy_hackertyper.Highlight.Tokenize.Lossless.{text_of, Scanned, Scanned-text_of}
use omarchy_hackertyper.Highlight.Tokenize.Rounds.{scan_text-Run}
use omarchy_hackertyper.Highlight.Tokenize.{
  Token, start_of, scan_text, config_of, select_config, scan_selected, tokenize,
}

-- The configuration that a cache key stands for.
unfoldable pub config_of_key : Text → LangConfig
config_of_key key = elim (config_of key languages) [ some cfg ↦ cfg | none ↦ fallback ]

-- Every cached scanner is the one that would be built for its key.
pub record IsValid (cache : Cache) : Type 0 where
  pub holds_scanner :
      (key : Text) (r : Regex) → cached key cache ≡ some r → r ≡ scanner (config_of_key key)

pub empty-IsValid : IsValid []
unfolding cached
empty-IsValid = record { holds_scanner = λ key r h. cc }

fallback-key : config_of (codes "__fallback__") languages ≡ none
unfolding config_of languages
fallback-key = refl

-- What is selected for a language: its own configuration, or the fallback under a key of its own.
pub data Selected (language key : Text) (cfg : LangConfig) : Type 0 where
  known : key ≡ language → config_of language languages ≡ some cfg → Selected language key cfg
  unknown :
      key ≡ codes "__fallback__"
      → cfg ≡ fallback
      → config_of language languages ≡ none
      → Selected language key cfg

pub select_config-Selected :
    (language : Text)
    → contains inherited_names language ≡ false
    → (key : Text) × (cfg : LangConfig) × (select_config language ≡ (key, own_value cfg))
      × Selected language key cfg
unfolding select_config
select_config-Selected language h = elim (Option-cases (config_of language languages)) [
  | inr (cfg, e) ↦ (language, cfg, rw (e, select_config), known refl e)
  | inl e ↦ (codes "__fallback__", fallback, rw (e, select_config, h), unknown refl refl e)
]

Selected-config_of_key :
    {language key : Text} {cfg : LangConfig} → Selected language key cfg → config_of_key key ≡ cfg
unfolding config_of_key
Selected-config_of_key (known k e) = rw (k, e, config_of_key)
Selected-config_of_key (unknown k c e) = rw (k, c, fallback-key, config_of_key)

Selected-key :
    {language key : Text} {cfg : LangConfig}
    → Selected language key cfg
    → contains inherited_names language ≡ false
    → contains inherited_names key ≡ false
Selected-key (known k e) h = rw (k) h
Selected-key (unknown k c e) h = rw (k) refl

-- No cached scanner stands under a name that every object inherits.
pub record NoneInherited (cache : Cache) : Type 0 where
  pub absent : (key : Text) → contains inherited_names key ≡ true → cached key cache ≡ none

pub empty-NoneInherited : NoneInherited []
unfolding cached
empty-NoneInherited = record { absent = λ key h. refl }

cached-cons-NoneInherited :
    (key : Text) (r : Regex) (cache : Cache)
    → contains inherited_names key ≡ false
    → NoneInherited cache
    → NoneInherited ((key, r) ∷ cache)
unfolding cached
cached-cons-NoneInherited key r cache h n = record {
  absent = λ k i. elim (Bool-cases (text_eq key k)) [
    | inl e ↦
        let keys : key ≡ k = (text_eq_iff key k).0 e in
        let other : contains inherited_names k ≡ false = rw (← keys) h in cc
    | inr e ↦ rw (e, n.absent k i) refl
  ];
}

-- The cache after a lookup, and the scanner that it gave.
record Looked (key : Text) (cfg : LangConfig) (cache : Cache) : Type 0 where
  later : Cache
  returns : scanner_for cache key (own_value cfg) ≡ some (own_value (scanner cfg), later)
  still_valid : IsValid later
  none_inherited : NoneInherited cache → NoneInherited later

pub cached-cons-IsValid :
    (key : Text) (cfg : LangConfig) (cache : Cache)
    → config_of_key key ≡ cfg
    → IsValid cache
    → IsValid ((key, scanner cfg) ∷ cache)
unfolding cached
cached-cons-IsValid key cfg cache c v = record {
  holds_scanner = λ k r h. elim (Bool-cases (text_eq key k)) [
    | inl e ↦
        let found : some (scanner cfg) ≡ some r = rw e at h in
        let same : scanner cfg ≡ r = cc in
        let keys : key ≡ k = (text_eq_iff key k).0 e in rw (← same, ← keys, c) refl
    | inr e ↦ v.holds_scanner k r (rw e at h)
  ];
}

scanner_for-Looked :
    (key : Text) (cfg : LangConfig) (cache : Cache)
    → config_of_key key ≡ cfg
    → contains inherited_names key ≡ false
    → IsValid cache
    → Looked key cfg cache
unfolding scanner_for
scanner_for-Looked key cfg cache c h v = elim (Option-cases (cached key cache)) [
  | inr (r, e) ↦
      let same : r ≡ scanner cfg = v.holds_scanner key r e ∙ ap scanner c in
      record {
        later = cache;
        returns = rw (e, scanner_for, same);
        still_valid = v;
        none_inherited = λ n. n;
      }
  | inl e ↦ record {
    later = (key, scanner cfg) ∷ cache;
    returns = rw (e, scanner_for, h, build_scanner_lem cfg);
    still_valid = cached-cons-IsValid key cfg cache c v;
    none_inherited = cached-cons-NoneInherited key (scanner cfg) cache h;
  }
]

-- A result of `tokenize`: the configuration selected, the tokens, and the cache.
pub record Tokenized (cache : Cache) (text language : Text) : Type 0 where
  pub key : Text
  pub cfg : LangConfig
  pub tokens : List Token
  pub later : Cache
  pub selected : Selected language key cfg
  pub scanned : Scanned cfg (scanner cfg) (start_of text) tokens
  pub returns : tokenize cache text language ≡ some (tokens, later)
  pub fresh : scan_text cfg (scanner cfg) text ≡ some tokens
  pub still_valid : IsValid later
  pub none_inherited : NoneInherited cache → NoneInherited later

-- `tokenize` from what was selected on.
abbrev pub tokenize_selected :
    Cache → Text → Text × Property LangConfig → Option (List Token × Cache)
tokenize_selected cache text (key, cfg) = elim (scanner_for cache key cfg) [
  | none ↦ none
  | some (scanner, later) ↦ elim (scan_selected cfg scanner text) [
    | none ↦ none
    | some tokens ↦ some (tokens, later)
  ]
]

pub tokenize_lem :
    (cache : Cache) (text language : Text)
    → tokenize cache text language ≡ tokenize_selected cache text (select_config language)
unfolding tokenize
tokenize_lem cache text language = refl

pub tokenize-Tokenized :
    (cache : Cache) (text language : Text)
    → IsValid cache
    → contains inherited_names language ≡ false
    → Tokenized cache text language
unfolding scan_selected
tokenize-Tokenized cache text language v h =
    let (key, cfg, chosen, selected) = select_config-Selected language h in
    let listed = Selected-config_of_key selected in
    let looked = scanner_for-Looked key cfg cache listed (Selected-key selected h) v in
    let run = scan_text-Run cfg (scanner cfg) text in
    record {
      key = key;
      cfg = cfg;
      tokens = run.added;
      later = looked.later;
      selected = selected;
      scanned = run.scanned;
      returns =
          tokenize_lem cache text language
          ∙ ap (tokenize_selected cache text) chosen
          ∙ rw (tokenize_selected, looked.returns, scan_selected, run.returns) refl;
      fresh = run.returns;
      still_valid = looked.still_valid;
      none_inherited = looked.none_inherited;
    }

-- For every text, every valid cache and every language name that no object inherits, `tokenize`
-- returns tokens whose texts, put together, are the text, and it keeps the cache valid.
pub tokenize_lossless :
    (cache : Cache) (text language : Text)
    → IsValid cache
    → contains inherited_names language ≡ false
    → (tokens : List Token) × (later : Cache) × (tokenize cache text language
        ≡ some (tokens, later))
      × (text_of tokens ≡ text)
      × IsValid later
tokenize_lossless cache text language v h =
    let t = tokenize-Tokenized cache text language v h in
    (t.tokens, t.later, t.returns, Scanned-text_of t.scanned, t.still_valid)
