-- ===== src/Highlight/Pattern.antt =====
-- The constructor `RegExp` on the patterns that `buildScanner` writes: the characters of a pattern
-- one by one, with the groups that are open. Of the character classes it knows those of the program.
pub mod Literal
use omarchy_hackertyper.Base.{
  ℕ, ◌||◌, List, [], ◌∷◌, reverse, Option, none, some, ◌==◌, if◌then◌else◌, Text, codes, text_eq,
}
use omarchy_hackertyper.Highlight.Regex.{
  CharSet, single, other_than, any, dot, digit, word_start, word_part, Regex, set, end_of_input,
  boundary, star, lazy, plus, optional, sequence, choice, is_word,
}

-- The alternatives of a group that are complete, and the items of the one being read, latest first.
pub record Group : Type 0 where
  pub choices : List Regex
  pub items : List Regex

abbrev pub new_group : Group
new_group = record { choices = []; items = [] }

abbrev pub group_choices : Group → List Regex
group_choices g = sequence (reverse g.items) ∷ g.choices

abbrev pub close_group : Group → Regex
close_group g = choice (reverse (group_choices g))

abbrev pub add_item : Regex → Group → Group
add_item r g = record g { items = r ∷ g.items }

abbrev quantify : (Regex → Regex) → List Regex → Option (List Regex)
quantify q [] = none
quantify q (r ∷ rs) = some (q r ∷ rs)

pub data Mode : Type 0 where
  -- behind a backslash; behind `*`; behind `(`; behind `(?`
  plain escaped starred opened marked : Mode
  -- within brackets, with the text so far, latest first
  bracket : Text → Mode

pub record Reader : Type 0 where
  pub mode : Mode
  pub group : Group
  pub outer : List Group

unfoldable pub class_of : Text → Option CharSet
class_of t =
    if text_eq t (codes "\\s\\S")
    then some any
    else if text_eq t (codes "^\\n")
    then some (other_than 10)
    else if text_eq t (codes "^\\\\")
    then some (other_than b'\\')
    else if text_eq t (codes "A-Za-z_")
    then some word_start
    else if text_eq t (codes "A-Za-z0-9_")
    then some word_part
    else none

abbrev pub add : Reader → Regex → Reader
add p r = record p { mode = plain; group = add_item r p.group }

abbrev repeat : Reader → (Regex → Regex) → Option Reader
repeat p q = elim (quantify q p.group.items) [
  | none ↦ none
  | some rs ↦
      some (record p { mode = plain; group = record { choices = p.group.choices; items = rs } })
]

abbrev close : Reader → List Group → Option Reader
close p [] = none
close p (g ∷ gs) =
    some (record { mode = plain; group = add_item (close_group p.group) g; outer = gs })

unfoldable pub read_plain : Reader → ℕ → Option Reader
read_plain p c =
    if c == b'\\'
    then some (record p { mode = escaped })
    else if c == b'*'
    then some (record p { mode = starred })
    else if c == b'+'
    then repeat p plus
    else if c == b'?'
    then repeat p optional
    else if c == b'('
    then some (record p { mode = opened })
    else if c == b')'
    then close p p.outer
    else if c == b'['
    then some (record p { mode = bracket [] })
    else if c == b'|'
    then some (record p { group = record { choices = group_choices p.group; items = [] } })
    else if c == b'$'
    then some (add p end_of_input)
    else if c == b'.'
    then some (add p (set dot))
    else if c == b'^' || c == b'{' || c == b'}' || c == b']'
    then none
    else some (add p (set (single c)))

-- Letters and digits behind a backslash have meanings of their own; the program uses two of them.
unfoldable pub read_escaped : Reader → ℕ → Option Reader
read_escaped p c =
    if c == b'd'
    then some (add p (set digit))
    else if c == b'b'
    then some (add p boundary)
    else if is_word c
    then none
    else some (add p (set (single c)))

unfoldable pub read_bracket : Reader → Text → ℕ → Option Reader
unfolding class_of
read_bracket p t c =
    if c == b']'
    then elim (class_of (reverse t)) [ none ↦ none | some s ↦ some (add p (set s)) ]
    else some (record p { mode = bracket (c ∷ t) })

abbrev and_then : Option Reader → (Reader → Option Reader) → Option Reader
and_then none f = none
and_then (some p) f = f p

unfoldable pub read : Mode → Reader → ℕ → Option Reader
unfolding read_plain read_escaped read_bracket
read plain p c = read_plain p c
read escaped p c = read_escaped p c
read starred p c =
    if c == b'?' then repeat p lazy else and_then (repeat p star) (λ q. read_plain q c)
read opened p c = if c == b'?' then some (record p { mode = marked }) else none
read marked p c =
    if c == b':'
    then some (record { mode = plain; group = new_group; outer = p.group ∷ p.outer })
    else none
read (bracket t) p c = read_bracket p t c

unfoldable pub finish : Mode → List Group → Reader → Option Regex
finish plain [] p = some (close_group p.group)
finish starred [] p = elim (repeat p star) [ none ↦ none | some q ↦ some (close_group q.group) ]
finish _ _ p = none

unfoldable pub read_all : Reader → Text → Option Regex
unfolding read finish
read_all p [] = finish p.mode p.outer p
read_all p (c ∷ cs) = elim (read p.mode p c) [ none ↦ none | some q ↦ read_all q cs ]

-- `new RegExp(pattern, "g")`; `none` for an error.
unfoldable pub reg_exp : Text → Option Regex
unfolding read_all read read_plain read_escaped read_bracket class_of finish
reg_exp = read_all (record { mode = plain; group = new_group; outer = [] })
