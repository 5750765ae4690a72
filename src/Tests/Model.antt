-- ===== src/Tests/Model.antt =====
-- HackerTyperModel.js and SourceCatalog.js.
use omarchy_hackertyper.Base.{List, ◌≤◌, max, Text, codes, length, ◌≡◌, refl, length}
use omarchy_hackertyper.Catalog.{sources}
use omarchy_hackertyper.Lines.{split_lines, join_lines, is_space}
use omarchy_hackertyper.Number.{nan, inf, number}
use omarchy_hackertyper.Prepare.Again.{prepare_source-prepare_source}
use omarchy_hackertyper.Prepare.Endings.{crlf, with_endings, prepare_source-with_endings}
use omarchy_hackertyper.Prepare.Hidden.{NoneHidden, prepare_source-NoneHidden}
use omarchy_hackertyper.Prepare.Exactly.{Prepared, prepare_source-Prepared}
use omarchy_hackertyper.Prepare.Reading.{Unmarked, Reads}
use omarchy_hackertyper.Prepare.{strip_mark, prepare_source}
use omarchy_hackertyper.Preview.Bounds.{length-preview}
use omarchy_hackertyper.Preview.{preview}
use omarchy_hackertyper.Progress.{advance, retreat}
use omarchy_hackertyper.Sources.Choice.{Picks, source_by_id-Picks}
use omarchy_hackertyper.Sources.{source_by_id}

advance_runs :
    (advance (number 0) (number 3) (number 10) ≡ number 3)
    × (advance (number 9) (number 3) (number 10) ≡ number 10)
    × (retreat (number 10) (number 3) (number 10) ≡ number 7)
    × (retreat (number 2) (number 3) (number 10) ≡ number 0)
    × (advance nan inf (number 10) ≡ number 0)
unfolding advance retreat
advance_runs = (refl, refl, refl, refl, refl)

abbrev bash_source : Text
bash_source =
    codes
      "#!/usr/bin/env bash\n# SPDX-License-Identifier: MIT\n# :: hidden\n# visible\necho ready\n"

prepare_source_runs :
    (prepare_source bash_source ≡ codes "#!/usr/bin/env bash\n# visible\necho ready\n")
    × (prepare_source (codes "\n// :: hidden\n\nimport QtQuick") ≡ codes "import QtQuick")
    × (prepare_source (codes "//  :: normal comment\n#:: normal comment\ncode")
        ≡ codes "//  :: normal comment\n#:: normal comment\ncode")
unfolding prepare_source
prepare_source_runs = (refl, refl, refl)

prepare_source-NoneHidden_example : NoneHidden (split_lines (prepare_source bash_source))
prepare_source-NoneHidden_example = prepare_source-NoneHidden bash_source

prepare_source-Prepared_example :
    (text : Text) × (file_lines : List Text) × (lines : List Text) × Unmarked bash_source text
    × Reads text file_lines
    × Prepared file_lines lines
    × (prepare_source bash_source ≡ join_lines lines)
prepare_source-Prepared_example = prepare_source-Prepared bash_source

prepare_source-prepare_source_example :
    prepare_source (prepare_source bash_source) ≡ strip_mark (prepare_source bash_source)
prepare_source-prepare_source_example = prepare_source-prepare_source bash_source

prepare_source-with_endings_example :
    prepare_source (with_endings crlf bash_source) ≡ prepare_source bash_source
prepare_source-with_endings_example = prepare_source-with_endings crlf bash_source refl

preview_runs :
    (preview (codes "one\ntwo\nthree\nfour") (number 2) (number 100) ≡ codes "one\ntwo")
    × (preview (codes "abcdefghijklmnopqrstuvwxyz") (number 2) (number 10) ≡ codes "abcdefghi…")
unfolding preview is_space
preview_runs = (refl, refl)

length-preview_example :
    length (preview (codes "abcdefghijklmnopqrstuvwxyz") (number 2) (number 10)) ≤ max 2 10
length-preview_example = length-preview (codes "abcdefghijklmnopqrstuvwxyz") (number 2) 10

source_by_id-Picks_example :
    Picks sources (codes "missing") (source_by_id sources (codes "missing"))
source_by_id-Picks_example = source_by_id-Picks sources (codes "missing")
