-- ===== src/Prepare.antt =====
-- HackerTyperModel.js: `prepareSource`, which turns a file's text into the text to be typed. The
-- argument is the text that `String(raw || "")` gives.
pub mod Lines
pub mod Endings
pub mod Hidden
pub mod Reading
pub mod Exactly
pub mod Again
use omarchy_hackertyper.Base.{
  ℕ, Bool, true, false, ◌&&◌, ◌||◌, List, [], ◌∷◌, ◌++◌, Option, none, some, ◌==◌, if◌then◌else◌,
  Text, codes, starts_with, drop, drop_while,
}
use omarchy_hackertyper.Lines.{
  newline, carriage_return, byte_order_mark, is_space, is_empty, split_lines, join_lines, trim,
}

-- `replace(/^\uFEFF/, "")`
unfoldable pub strip_mark : Text → Text
strip_mark [] = []
strip_mark (x ∷ xs) = if x == byte_order_mark then xs else x ∷ xs

-- `replace(/\r\n?/g, "\n")`; the flag says that the code unit before was a carriage return, whose
-- match takes in one newline.
unfoldable pub normalize_after : Bool → Text → Text
normalize_after after [] = []
normalize_after after (x ∷ xs) =
    let rest = normalize_after (x == carriage_return) xs in
    if x == carriage_return
    then newline ∷ rest
    else if after && x == newline
    then rest
    else x ∷ rest

abbrev pub normalize : Text → Text
normalize = normalize_after false

-- What follows `(?:\/\/|#|--)` at the start.
unfoldable pub after_marker : Text → Option Text
after_marker t =
    if starts_with (codes "//") t
    then some (drop 2 t)
    else if starts_with (codes "#") t
    then some (drop 1 t)
    else if starts_with (codes "--") t
    then some (drop 2 t)
    else none

-- `/^(?:\/\/|#|--)\s*SPDX-License-Identifier:/`
unfoldable pub is_license : Text → Bool
unfolding after_marker is_space
is_license t = elim (after_marker t) [
  | none ↦ false
  | some rest ↦ starts_with (codes "SPDX-License-Identifier:") (drop_while is_space rest)
]

-- `/^(?:\/\/|#|--) ::/`
unfoldable pub is_note : Text → Bool
unfolding after_marker
is_note t = elim (after_marker t) [ none ↦ false | some rest ↦ starts_with (codes " ::") rest ]

-- The `for` loop, whose two `continue`s leave out a line.
unfoldable pub collect : List Text → List Text → List Text
unfolding is_license is_note trim
collect prepared [] = prepared
collect prepared (line ∷ lines) =
    let trimmed = trim line in
    collect
      (if is_license trimmed
        then prepared
        else if is_note trimmed
        then prepared
        else prepared ++ line ∷ [])
      lines

abbrev pub is_blank : Text → Bool
is_blank line = is_empty (trim line)

-- The `while` loop of `shift`s.
unfoldable pub shift_blank : List Text → List Text
unfolding trim
shift_blank [] = []
shift_blank (line ∷ lines) = if is_blank line then shift_blank lines else line ∷ lines

unfoldable pub prepare_source : Text → Text
unfolding strip_mark normalize_after collect shift_blank split_lines join_lines
prepare_source raw =
    let text = normalize (strip_mark raw) in
    join_lines (shift_blank (collect [] (split_lines text)))
