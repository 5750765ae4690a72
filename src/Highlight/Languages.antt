-- ===== src/Highlight/Languages.antt =====
-- SyntaxHighlight.js: `LANGUAGES` and `FALLBACK`.
use omarchy_hackertyper.Base.{true, false, List, [], ◌∷◌, none, some, Text, codes}
use omarchy_hackertyper.Highlight.Config.{LangConfig, lang_config, words}

abbrev pub clike_strings : List Text
clike_strings = words ("\"" ∷ "'" ∷ [])

unfoldable pub c : LangConfig
unfolding lang_config
c =
    lang_config
      (words (
        "auto" ∷ "break" ∷ "case" ∷ "char" ∷ "const" ∷ "continue" ∷ "default" ∷ "do" ∷ "double"
        ∷ "else" ∷ "enum" ∷ "extern" ∷ "float" ∷ "for" ∷ "goto" ∷ "if" ∷ "int" ∷ "long" ∷ "register"
        ∷ "return" ∷ "short" ∷ "signed" ∷ "sizeof" ∷ "static" ∷ "struct" ∷ "switch" ∷ "typedef"
        ∷ "union" ∷ "unsigned" ∷ "void" ∷ "volatile" ∷ "while" ∷ "include" ∷ "define" ∷ "ifdef"
        ∷ "ifndef" ∷ "endif" ∷ "NULL" ∷ []))
      (some (codes "//")) (some (codes "/*", codes "*/")) (some clike_strings) false

unfoldable pub cpp : LangConfig
unfolding lang_config
cpp =
    lang_config
      (words (
        "auto" ∷ "break" ∷ "case" ∷ "char" ∷ "class" ∷ "const" ∷ "constexpr" ∷ "continue"
        ∷ "default" ∷ "delete" ∷ "do" ∷ "double" ∷ "else" ∷ "enum" ∷ "explicit" ∷ "extern" ∷ "final"
        ∷ "float" ∷ "for" ∷ "friend" ∷ "goto" ∷ "if" ∷ "inline" ∷ "int" ∷ "long" ∷ "namespace"
        ∷ "new" ∷ "noexcept" ∷ "nullptr" ∷ "operator" ∷ "override" ∷ "private" ∷ "protected"
        ∷ "public" ∷ "register" ∷ "return" ∷ "short" ∷ "signed" ∷ "sizeof" ∷ "static" ∷ "struct"
        ∷ "switch" ∷ "template" ∷ "this" ∷ "throw" ∷ "true" ∷ "false" ∷ "try" ∷ "catch" ∷ "typedef"
        ∷ "typename" ∷ "union" ∷ "unsigned" ∷ "using" ∷ "virtual" ∷ "void" ∷ "volatile" ∷ "while"
        ∷ []))
      (some (codes "//")) (some (codes "/*", codes "*/")) (some clike_strings) false

unfoldable pub csharp : LangConfig
unfolding lang_config
csharp =
    lang_config
      (words (
        "abstract" ∷ "async" ∷ "await" ∷ "bool" ∷ "break" ∷ "case" ∷ "catch" ∷ "class" ∷ "const"
        ∷ "continue" ∷ "default" ∷ "delegate" ∷ "do" ∷ "double" ∷ "else" ∷ "enum" ∷ "event"
        ∷ "explicit" ∷ "extern" ∷ "false" ∷ "finally" ∷ "float" ∷ "for" ∷ "foreach" ∷ "if"
        ∷ "implicit" ∷ "in" ∷ "int" ∷ "interface" ∷ "internal" ∷ "is" ∷ "lock" ∷ "long"
        ∷ "namespace" ∷ "new" ∷ "null" ∷ "object" ∷ "override" ∷ "params" ∷ "private" ∷ "protected"
        ∷ "public" ∷ "readonly" ∷ "ref" ∷ "return" ∷ "sealed" ∷ "short" ∷ "static" ∷ "string"
        ∷ "struct" ∷ "switch" ∷ "this" ∷ "throw" ∷ "true" ∷ "try" ∷ "typeof" ∷ "using" ∷ "var"
        ∷ "virtual" ∷ "void" ∷ "while" ∷ "yield" ∷ []))
      (some (codes "//")) (some (codes "/*", codes "*/")) (some clike_strings) false

unfoldable pub java : LangConfig
unfolding lang_config
java =
    lang_config
      (words (
        "abstract" ∷ "assert" ∷ "boolean" ∷ "break" ∷ "byte" ∷ "case" ∷ "catch" ∷ "char" ∷ "class"
        ∷ "const" ∷ "continue" ∷ "default" ∷ "do" ∷ "double" ∷ "else" ∷ "enum" ∷ "extends" ∷ "final"
        ∷ "finally" ∷ "float" ∷ "for" ∷ "if" ∷ "implements" ∷ "import" ∷ "instanceof" ∷ "int"
        ∷ "interface" ∷ "long" ∷ "native" ∷ "new" ∷ "package" ∷ "private" ∷ "protected" ∷ "public"
        ∷ "return" ∷ "short" ∷ "static" ∷ "strictfp" ∷ "super" ∷ "switch" ∷ "synchronized" ∷ "this"
        ∷ "throw" ∷ "throws" ∷ "transient" ∷ "try" ∷ "void" ∷ "volatile" ∷ "while" ∷ "true"
        ∷ "false" ∷ "null" ∷ []))
      (some (codes "//")) (some (codes "/*", codes "*/")) (some clike_strings) false

unfoldable pub typescript : LangConfig
unfolding lang_config
typescript =
    lang_config
      (words (
        "as" ∷ "async" ∷ "await" ∷ "break" ∷ "case" ∷ "catch" ∷ "class" ∷ "const" ∷ "continue"
        ∷ "default" ∷ "delete" ∷ "do" ∷ "else" ∷ "enum" ∷ "export" ∷ "extends" ∷ "false" ∷ "finally"
        ∷ "for" ∷ "from" ∷ "function" ∷ "if" ∷ "implements" ∷ "import" ∷ "in" ∷ "instanceof"
        ∷ "interface" ∷ "let" ∷ "new" ∷ "null" ∷ "of" ∷ "private" ∷ "protected" ∷ "public"
        ∷ "readonly" ∷ "return" ∷ "static" ∷ "super" ∷ "switch" ∷ "this" ∷ "throw" ∷ "true" ∷ "try"
        ∷ "type" ∷ "typeof" ∷ "undefined" ∷ "var" ∷ "void" ∷ "while" ∷ "yield" ∷ []))
      (some (codes "//")) (some (codes "/*", codes "*/")) (some (words ("\"" ∷ "'" ∷ "`" ∷ [])))
      false

unfoldable pub python : LangConfig
unfolding lang_config
python =
    lang_config
      (words (
        "and" ∷ "as" ∷ "assert" ∷ "async" ∷ "await" ∷ "break" ∷ "class" ∷ "continue" ∷ "def" ∷ "del"
        ∷ "elif" ∷ "else" ∷ "except" ∷ "finally" ∷ "for" ∷ "from" ∷ "global" ∷ "if" ∷ "import"
        ∷ "in" ∷ "is" ∷ "lambda" ∷ "None" ∷ "nonlocal" ∷ "not" ∷ "or" ∷ "pass" ∷ "raise" ∷ "return"
        ∷ "self" ∷ "True" ∷ "False" ∷ "try" ∷ "while" ∷ "with" ∷ "yield" ∷ []))
      (some (codes "#")) none (some clike_strings) false

unfoldable pub go : LangConfig
unfolding lang_config
go =
    lang_config
      (words (
        "break" ∷ "case" ∷ "chan" ∷ "const" ∷ "continue" ∷ "default" ∷ "defer" ∷ "else"
        ∷ "fallthrough" ∷ "for" ∷ "func" ∷ "go" ∷ "goto" ∷ "if" ∷ "import" ∷ "interface" ∷ "map"
        ∷ "package" ∷ "range" ∷ "return" ∷ "select" ∷ "struct" ∷ "switch" ∷ "type" ∷ "var" ∷ "nil"
        ∷ "true" ∷ "false" ∷ []))
      (some (codes "//")) (some (codes "/*", codes "*/")) (some clike_strings) false

unfoldable pub rust : LangConfig
unfolding lang_config
rust =
    lang_config
      (words (
        "as" ∷ "break" ∷ "const" ∷ "continue" ∷ "crate" ∷ "dyn" ∷ "else" ∷ "enum" ∷ "extern" ∷ "fn"
        ∷ "for" ∷ "if" ∷ "impl" ∷ "in" ∷ "let" ∷ "loop" ∷ "match" ∷ "mod" ∷ "move" ∷ "mut" ∷ "pub"
        ∷ "ref" ∷ "return" ∷ "self" ∷ "Self" ∷ "static" ∷ "struct" ∷ "super" ∷ "trait" ∷ "true"
        ∷ "false" ∷ "type" ∷ "unsafe" ∷ "use" ∷ "where" ∷ "while" ∷ "None" ∷ "Some" ∷ "Ok" ∷ "Err"
        ∷ []))
      (some (codes "//")) (some (codes "/*", codes "*/")) (some clike_strings) false

unfoldable pub ruby : LangConfig
unfolding lang_config
ruby =
    lang_config
      (words (
        "begin" ∷ "break" ∷ "case" ∷ "class" ∷ "def" ∷ "do" ∷ "else" ∷ "elsif" ∷ "end" ∷ "ensure"
        ∷ "false" ∷ "for" ∷ "if" ∷ "in" ∷ "module" ∷ "next" ∷ "nil" ∷ "not" ∷ "or" ∷ "raise"
        ∷ "redo" ∷ "rescue" ∷ "retry" ∷ "return" ∷ "self" ∷ "super" ∷ "then" ∷ "true" ∷ "undef"
        ∷ "unless" ∷ "until" ∷ "when" ∷ "while" ∷ "yield" ∷ "and" ∷ []))
      (some (codes "#")) none (some clike_strings) false

unfoldable pub php : LangConfig
unfolding lang_config
php =
    lang_config
      (words (
        "abstract" ∷ "and" ∷ "array" ∷ "as" ∷ "break" ∷ "case" ∷ "catch" ∷ "class" ∷ "clone"
        ∷ "const" ∷ "continue" ∷ "declare" ∷ "default" ∷ "do" ∷ "echo" ∷ "else" ∷ "elseif" ∷ "empty"
        ∷ "enddeclare" ∷ "endfor" ∷ "endforeach" ∷ "endif" ∷ "endswitch" ∷ "endwhile" ∷ "extends"
        ∷ "final" ∷ "finally" ∷ "fn" ∷ "for" ∷ "foreach" ∷ "function" ∷ "global" ∷ "goto" ∷ "if"
        ∷ "implements" ∷ "include" ∷ "instanceof" ∷ "insteadof" ∷ "interface" ∷ "isset" ∷ "list"
        ∷ "namespace" ∷ "new" ∷ "or" ∷ "print" ∷ "private" ∷ "protected" ∷ "public" ∷ "require"
        ∷ "return" ∷ "static" ∷ "switch" ∷ "throw" ∷ "trait" ∷ "try" ∷ "unset" ∷ "use" ∷ "var"
        ∷ "while" ∷ "xor" ∷ "yield" ∷ "true" ∷ "false" ∷ "null" ∷ []))
      (some (codes "//")) (some (codes "/*", codes "*/")) (some clike_strings) false

unfoldable pub bash : LangConfig
unfolding lang_config
bash =
    lang_config
      (words (
        "if" ∷ "then" ∷ "elif" ∷ "else" ∷ "fi" ∷ "for" ∷ "while" ∷ "until" ∷ "do" ∷ "done" ∷ "case"
        ∷ "esac" ∷ "function" ∷ "return" ∷ "break" ∷ "continue" ∷ "local" ∷ "export" ∷ "readonly"
        ∷ "declare" ∷ "in" ∷ "select" ∷ "time" ∷ []))
      (some (codes "#")) none (some clike_strings) false

unfoldable pub sql : LangConfig
unfolding lang_config
sql =
    lang_config
      (words (
        "select" ∷ "from" ∷ "where" ∷ "join" ∷ "inner" ∷ "left" ∷ "right" ∷ "outer" ∷ "on" ∷ "group"
        ∷ "by" ∷ "order" ∷ "having" ∷ "insert" ∷ "into" ∷ "values" ∷ "update" ∷ "set" ∷ "delete"
        ∷ "create" ∷ "table" ∷ "alter" ∷ "drop" ∷ "index" ∷ "primary" ∷ "key" ∷ "foreign"
        ∷ "references" ∷ "not" ∷ "null" ∷ "default" ∷ "unique" ∷ "as" ∷ "and" ∷ "or" ∷ "in"
        ∷ "exists" ∷ "between" ∷ "like" ∷ "union" ∷ "all" ∷ "distinct" ∷ "limit" ∷ "view" ∷ "case"
        ∷ "when" ∷ "then" ∷ "else" ∷ "end" ∷ []))
      (some (codes "--")) (some (codes "/*", codes "*/")) (some (words ("'" ∷ []))) true

unfoldable pub lua : LangConfig
unfolding lang_config
lua =
    lang_config
      (words (
        "and" ∷ "break" ∷ "do" ∷ "else" ∷ "elseif" ∷ "end" ∷ "false" ∷ "for" ∷ "function" ∷ "if"
        ∷ "in" ∷ "local" ∷ "nil" ∷ "not" ∷ "or" ∷ "repeat" ∷ "return" ∷ "then" ∷ "true" ∷ "until"
        ∷ "while" ∷ []))
      (some (codes "--")) none (some clike_strings) false

unfoldable pub qml : LangConfig
unfolding lang_config
qml =
    lang_config
      (words (
        "import" ∷ "as" ∷ "property" ∷ "function" ∷ "var" ∷ "let" ∷ "const" ∷ "return" ∷ "if"
        ∷ "else" ∷ "for" ∷ "while" ∷ "readonly" ∷ "signal" ∷ "alias" ∷ "true" ∷ "false" ∷ "null"
        ∷ "id" ∷ "int" ∷ "string" ∷ "bool" ∷ "real" ∷ "list" ∷ "default" ∷ "required" ∷ []))
      (some (codes "//")) (some (codes "/*", codes "*/")) (some (words ("\"" ∷ "'" ∷ []))) false

unfoldable pub languages : List (Text × LangConfig)
unfolding c cpp csharp java typescript python go rust ruby php bash sql lua qml
languages =
    (codes "C", c)
    ∷ (codes "C++", cpp)
    ∷ (codes "C#", csharp)
    ∷ (codes "Java", java)
    ∷ (codes "TypeScript", typescript)
    ∷ (codes "Python", python)
    ∷ (codes "Go", go)
    ∷ (codes "Rust", rust)
    ∷ (codes "Ruby", ruby)
    ∷ (codes "PHP", php)
    ∷ (codes "Bash", bash)
    ∷ (codes "SQL", sql)
    ∷ (codes "Lua", lua)
    ∷ (codes "QML", qml)
    ∷ []

unfoldable pub fallback : LangConfig
unfolding lang_config
fallback =
    lang_config [] (some (codes "//")) (some (codes "/*", codes "*/")) (some clike_strings) false
