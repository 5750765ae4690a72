-- ===== src/Catalog/Entries.antt =====
-- The catalog fits the lookup and the highlighting.
use omarchy_hackertyper.Base.{
  ℕ, Bool, true, false, not, List, [], ◌∷◌, ◌++◌, length, sym, ap, ◌∙◌, Option, none, some,
  Option-cases, Text, contains, all, ◌≡◌, refl, inl, inr, arith,
}
use omarchy_hackertyper.Catalog.{sources}
use omarchy_hackertyper.Highlight.Config.{LangConfig, inherited_names}
use omarchy_hackertyper.Highlight.Languages.{languages}
use omarchy_hackertyper.Highlight.Tokenize.{config_of}
use omarchy_hackertyper.Sources.Choice.{
  Picks, found, fallback, empty, source_by_id-Picks, distinct, ids, source_at,
  source_by_id-source_at, source_by_id-all, source_at-all,
}
use omarchy_hackertyper.Sources.{Source, source_by_id}

pub sources-distinct : distinct (ids sources) ≡ true
unfolding sources
sources-distinct = refl

-- Every source of the catalog is found by its id.
pub source_by_id-sources :
    (i : ℕ) (s : Source) → source_at sources i ≡ some s → source_by_id sources s.id ≡ some s
source_by_id-sources i s h = source_by_id-source_at sources i s sources-distinct h

source_at-append :
    (before : List Source) (s : Source) (after : List Source)
    → source_at (before ++ s ∷ after) (length before) ≡ some s
source_at-append [] s after = refl
source_at-append (x ∷ before) s after = source_at-append before s after

-- What a lookup finds is an entry of the catalog.
pub source_by_id_at :
    (requested : Text) (s : Source)
    → source_by_id sources requested ≡ some s
    → (i : ℕ) × (source_at sources i ≡ some s)
source_by_id_at requested s h = go (source_by_id-Picks sources requested)
  where
    go :
        Picks sources requested (source_by_id sources requested)
        → (i : ℕ) × (source_at sources i ≡ some s)
    go (found before t after splits _ _ same) = (
      length before,
      ap (λ l. source_at l (length before)) splits ∙ source_at-append before t after ∙ sym same ∙ h,
    )
    go (fallback t rest splits _ same) = (0, ap (λ l. source_at l 0) splits ∙ sym same ∙ h)
    go (empty _ same) = cc

-- What a lookup finds is found again by its own id.
pub source_by_id_again :
    (requested : Text) (s : Source)
    → source_by_id sources requested ≡ some s
    → source_by_id sources s.id ≡ some s
source_by_id_again requested s h =
    let (i, at_i) = source_by_id_at requested s h in source_by_id-sources i s at_i

abbrev is_some {ℓ} : {A : Type ℓ} → Option A → Bool
is_some none = false
is_some (some a) = true

sources-known : all (λ s. is_some (config_of s.language languages)) sources ≡ true
unfolding sources config_of languages
sources-known = refl

-- Every source of the catalog is highlighted by a configuration of its own language, never by the
-- fallback.
pub config_of-sources :
    (i : ℕ) (s : Source)
    → source_at sources i ≡ some s
    → (cfg : LangConfig) × (config_of s.language languages ≡ some cfg)
config_of-sources i s h = elim (Option-cases (config_of s.language languages)) [
  | inr known ↦ known
  | inl e ↦
      let known : is_some (config_of s.language languages) ≡ true =
        source_at-all (λ t. is_some (config_of t.language languages)) sources i s sources-known h in
      absurd (ground arith)
]

not_inherited : all (λ s. not (contains inherited_names s.language)) sources ≡ true
unfolding sources
not_inherited = refl

-- Whatever id is looked up, the language of the source has a name that no object inherits.
pub source_by_id_language :
    (requested : Text) (s : Source)
    → source_by_id sources requested ≡ some s
    → contains inherited_names s.language ≡ false
source_by_id_language requested s h =
    let n : not (contains inherited_names s.language) ≡ true =
      source_by_id-all (λ t. not (contains inherited_names t.language)) sources requested s
        not_inherited h in
    go (contains inherited_names s.language) n
  where
    go : (b : Bool) → not b ≡ true → b ≡ false
    go true n = cc
    go false n = refl
