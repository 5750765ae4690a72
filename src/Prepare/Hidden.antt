-- ===== src/Prepare/Hidden.antt =====
-- The lines that must not be typed, described without the code's tests.
use omarchy_hackertyper.Base.{
  ℕ, true, false, List, [], ◌∷◌, ◌++◌, some, Text, codes, starts_with-append, all, drop_while, ◌≡◌,
  refl, arith,
}
use omarchy_hackertyper.Lines.{is_space, split_lines, trim}
use omarchy_hackertyper.Prepare.Lines.{is_visible, prepare_source-is_visible}
use omarchy_hackertyper.Prepare.{after_marker, is_license, is_note, prepare_source}

-- The comment markers of the bundled languages.
pub data Marker : Type 0 where
  slashes hash dashes : Marker

abbrev pub marker : Marker → Text
marker slashes = codes "//"
marker hash = codes "#"
marker dashes = codes "--"

-- A comment that is an SPDX license line, or one of the `::` notes.
pub data IsHidden (line : Text) : Type 0 where
  license :
      (m : Marker) (space rest : Text)
      → all is_space space ≡ true
      → trim line ≡ marker m ++ (space ++ (codes "SPDX-License-Identifier:" ++ rest))
      → IsHidden line
  note : (m : Marker) (rest : Text) → trim line ≡ marker m ++ (codes " ::" ++ rest) → IsHidden line

after_marker-marker : (m : Marker) (rest : Text) → after_marker (marker m ++ rest) ≡ some rest
unfolding after_marker
after_marker-marker slashes rest = refl
after_marker-marker hash rest = refl
after_marker-marker dashes rest = refl

drop_while_spaces :
    (space : Text) (x : ℕ) (rest : Text)
    → all is_space space ≡ true
    → is_space x ≡ false
    → drop_while is_space (space ++ x ∷ rest) ≡ x ∷ rest
drop_while_spaces [] x rest a h = rw h refl
drop_while_spaces (s ∷ space) x rest a h = ground (arith, drop_while_spaces space x rest)

not_space : is_space b'S' ≡ false
unfolding is_space
not_space = refl

license-is_license :
    (m : Marker) (space rest : Text)
    → all is_space space ≡ true
    → is_license (marker m ++ (space ++ (codes "SPDX-License-Identifier:" ++ rest))) ≡ true
unfolding is_license
license-is_license m space rest a =
    let after = codes "SPDX-License-Identifier:" ++ rest in
    rw (after_marker-marker m (space ++ after), is_license)
      (rw (drop_while_spaces space b'S' (codes "PDX-License-Identifier:" ++ rest) a not_space)
        (starts_with-append (codes "SPDX-License-Identifier:") rest))

note-is_note : (m : Marker) (rest : Text) → is_note (marker m ++ (codes " ::" ++ rest)) ≡ true
unfolding is_note
note-is_note m rest =
    rw (after_marker-marker m (codes " ::" ++ rest), is_note)
      (starts_with-append (codes " ::") rest)

pub not_visible : (line : Text) → is_visible line ≡ true → ¬ IsHidden line
unfolding is_visible
not_visible line v (license m space rest a e) =
    ground (arith, rw (← e) at (license-is_license m space rest a))
not_visible line v (note m rest e) = ground (arith, rw (← e) at (note-is_note m rest))

abbrev pub NoneHidden : List Text → Type 0
NoneHidden [] = Unit
NoneHidden (l ∷ ls) = (¬ IsHidden l) × NoneHidden ls

all-NoneHidden : (ls : List Text) → all is_visible ls ≡ true → NoneHidden ls
all-NoneHidden [] h = tt
all-NoneHidden (l ∷ ls) h = (not_visible l (ground arith), all-NoneHidden ls (ground arith))

-- No line of the prepared text is, trimmed, a comment that begins with `SPDX-License-Identifier:` or
-- with ` ::` behind its marker.
pub prepare_source-NoneHidden : (raw : Text) → NoneHidden (split_lines (prepare_source raw))
prepare_source-NoneHidden raw =
    all-NoneHidden (split_lines (prepare_source raw)) (prepare_source-is_visible raw)
