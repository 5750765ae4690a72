-- ===== src/Highlight/Tokenize/Apart.antt =====
-- In every language of the table, and in the fallback, comments and quotes stand apart.
use omarchy_hackertyper.Base.{List, [], ◌∷◌, some, Bool-cases, Text, text_eq, ◌≡◌, refl, inl, inr}
use omarchy_hackertyper.Highlight.Config.{LangConfig}
use omarchy_hackertyper.Highlight.Languages.{languages, fallback}
use omarchy_hackertyper.Highlight.Tokenize.Cached.{Selected, known, unknown}
use omarchy_hackertyper.Highlight.Tokenize.Shapes.{IsApart}
use omarchy_hackertyper.Highlight.Tokenize.{config_of}

abbrev AllApart : List (Text × LangConfig) → Type 0
AllApart [] = Unit
AllApart ((name, cfg) ∷ rest) = IsApart cfg × AllApart rest

fallback-IsApart : IsApart fallback
unfolding fallback
fallback-IsApart = record { blocks = refl; lines = refl; quotes = refl }

languages-IsApart : AllApart languages
unfolding languages
languages-IsApart = (
  record { blocks = refl; lines = refl; quotes = refl },
  (
    record { blocks = refl; lines = refl; quotes = refl },
    (
      record { blocks = refl; lines = refl; quotes = refl },
      (
        record { blocks = refl; lines = refl; quotes = refl },
        (
          record { blocks = refl; lines = refl; quotes = refl },
          (
            record { blocks = refl; lines = refl; quotes = refl },
            (
              record { blocks = refl; lines = refl; quotes = refl },
              (
                record { blocks = refl; lines = refl; quotes = refl },
                (
                  record { blocks = refl; lines = refl; quotes = refl },
                  (
                    record { blocks = refl; lines = refl; quotes = refl },
                    (
                      record { blocks = refl; lines = refl; quotes = refl },
                      (
                        record { blocks = refl; lines = refl; quotes = refl },
                        (
                          record { blocks = refl; lines = refl; quotes = refl },
                          (record { blocks = refl; lines = refl; quotes = refl }, tt),
                        ),
                      ),
                    ),
                  ),
                ),
              ),
            ),
          ),
        ),
      ),
    ),
  ),
)

config_of-IsApart :
    (language : Text) (list : List (Text × LangConfig)) (cfg : LangConfig)
    → AllApart list
    → config_of language list ≡ some cfg
    → IsApart cfg
unfolding config_of
config_of-IsApart language [] cfg a h = cc
config_of-IsApart language ((name, c) ∷ rest) cfg a h = elim (Bool-cases (text_eq name language)) [
  | inl e ↦ let found : some c ≡ some cfg = rw e at h in let same : c ≡ cfg = cc in rw (← same) a.0
  | inr e ↦ config_of-IsApart language rest cfg a.1 (rw e at h)
]

pub Selected-IsApart :
    {language key : Text} {cfg : LangConfig} → Selected language key cfg → IsApart cfg
Selected-IsApart {language} {key} {cfg} (known k e) =
    config_of-IsApart language languages cfg languages-IsApart e
Selected-IsApart (unknown k c e) = rw c fallback-IsApart
