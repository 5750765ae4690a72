-- ===== src/Highlight/Config.antt =====
-- SyntaxHighlight.js: what the tokenizer knows of a language. `null` and `undefined` are `none`.
use omarchy_hackertyper.Base.{
  Bool, ◌||◌, List, [], ◌∷◌, ◌++◌, map, Option, none, some, if◌then◌else◌, Text, codes, text_eq,
  contains,
}
use Prim.Native.String.{String}

abbrev pub words : List String → List Text
words = map codes

-- A plain object used as a set: it has its own names, and those that every object inherits.
pub record KeywordSet : Type 0 where
  pub own : List Text

-- The names of `Object.prototype`.
abbrev pub inherited_names : List Text
inherited_names = words (
    "constructor" ∷ "hasOwnProperty" ∷ "isPrototypeOf" ∷ "propertyIsEnumerable" ∷ "toLocaleString"
    ∷ "toString" ∷ "valueOf" ∷ "__proto__" ∷ "__defineGetter__" ∷ "__defineSetter__"
    ∷ "__lookupGetter__" ∷ "__lookupSetter__" ∷ [])

-- A truthy property of a plain object: one of its own, or one that it inherits, which is a function or
-- `Object.prototype`.
pub data Property {ℓ} (A : Type ℓ) : Type ℓ where
  own_value : A → Property A
  inherited : Property A

-- `object[name]`, given its own property of that name; `undefined` is `none`.
abbrev pub property_of {ℓ} : {A : Type ℓ} → Text → Option A → Option (Property A)
property_of name (some a) = some (own_value a)
property_of name none = if contains inherited_names name then some inherited else none

-- The loop of assignments `set[words[i]] = true`, of which the one to "__proto__" has no effect.
unfoldable pub add_keywords : List Text → List Text → List Text
add_keywords own [] = own
add_keywords own (w ∷ ws) =
    add_keywords (if text_eq w (codes "__proto__") then own else own ++ w ∷ []) ws

unfoldable pub build_keyword_set : List Text → KeywordSet
unfolding add_keywords
build_keyword_set names = record { own = add_keywords [] names }

-- `cfg.keywords[word]` as a condition: every inherited property is truthy.
unfoldable pub has_keyword : KeywordSet → Text → Bool
has_keyword set word = contains set.own word || contains inherited_names word

pub record LangConfig : Type 0 where
  pub keywords : KeywordSet
  pub line_comment : Option Text
  pub block_comment : Option (Text × Text)
  pub string_chars : List Text
  pub case_insensitive : Bool

-- `text || null`
abbrev pub text_or_null : Option Text → Option Text
text_or_null none = none
text_or_null (some []) = none
text_or_null (some (x ∷ xs)) = some (x ∷ xs)

abbrev pub default_strings : Option (List Text) → List Text
default_strings none = words ("\"" ∷ "'" ∷ [])
default_strings (some cs) = cs

unfoldable pub lang_config :
    List Text → Option Text → Option (Text × Text) → Option (List Text) → Bool → LangConfig
unfolding build_keyword_set
lang_config names line block strings insensitive = record {
  keywords = build_keyword_set names;
  line_comment = text_or_null line;
  block_comment = block;
  string_chars = default_strings strings;
  case_insensitive = insensitive;
}
