-- ===== src/GoType.antt =====
-- The part of Go's `reflect` that the dispatcher and the publisher use: a value's dynamic type,
-- what it points to, and its two spellings.
use bunmq.Base.{String, ◌<>◌}

-- `named` is a defined type with its package's name, `builtin` a predeclared one (`string`), and
-- `composite` any other type that is no pointer, by its spelling (`[]int`).
pub data GoType : Type 0 where
  named : (package_name name : String) → GoType
  builtin : String → GoType
  pointer : GoType → GoType
  composite : String → GoType

-- `if t.Kind() == reflect.Ptr { t = t.Elem() }`
abbrev pub deref : GoType → GoType
deref (pointer t) = t
deref t = t

-- `t.String()`
abbrev pub type_string : GoType → String
type_string (named p n) = p <> ("." <> n)
type_string (builtin n) = n
type_string (pointer t) = "*" <> type_string t
type_string (composite s) = s

-- `t.Name()`, empty for a type that has no name
abbrev pub type_name : GoType → String
type_name (named p n) = n
type_name (builtin n) = n
type_name (pointer t) = ""
type_name (composite s) = ""
