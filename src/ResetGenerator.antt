-- ===== src/ResetGenerator.antt =====
-- cmd/reset/generate/generate.go: which structs are marked, and the text of the Reset method that is
-- written for each. go/types, go/format and unicode are parameters.
pub mod Meaning
mod Methods
pub mod Fields
pub mod Run
use Prim.Native.String
use Prim.Native.Char.{Char}
use go_yandex_practicum_metr.Prelude.{
  ℕ, eqb, String, ◌==◌, Bool, true, false, not, ◌&&◌, ◌||◌, Option, none, some, List, [], ◌∷◌, ◌++◌,
  if◌then◌else◌,
}
use go_yandex_practicum_metr.GoText.{trim_space, trim_prefix, trim_suffix}

-- types.BasicKind, as far as basicZero tells the kinds apart
pub data BasicKind : Type 0 where
  bool_kind untyped_bool string_kind untyped_string number_kind unsafe_pointer : BasicKind

-- types.Type; a named type has its package path, its name and its underlying type
pub data GoType : Type 0 where
  basic : BasicKind → GoType
  slice map_type : GoType
  pointer : GoType → GoType
  named : Option String → String → GoType → GoType
  -- an alias, with the type that it stands for
  alias : GoType → GoType
  -- an array, a struct, a channel, a function or an interface
  other_type : GoType

-- a method of a method set: its name, and its counts of parameters and results
pub record Method : Type 0 where
  pub name : String
  pub params : ℕ
  pub results : ℕ

-- basicZero
unfoldable pub basic_zero : BasicKind → String
basic_zero bool_kind = "false"
basic_zero untyped_bool = "false"
basic_zero string_kind = "\"\""
basic_zero untyped_string = "\"\""
basic_zero number_kind = "0"
basic_zero unsafe_pointer = "0"

-- the loop of hasResetMethod
unfoldable pub has_reset_method : List Method → Bool
has_reset_method [] = false
has_reset_method (m ∷ ms) =
    (m.name == "Reset" && eqb m.params 0 && eqb m.results 0) || has_reset_method ms

abbrev pub is_pointer : GoType → Bool
is_pointer (pointer t) = true
is_pointer (basic k) = false
is_pointer slice = false
is_pointer map_type = false
is_pointer (named pkg name u) = false
is_pointer (alias t) = false
is_pointer other_type = false

-- Underlying of go/types
abbrev pub underlying : GoType → GoType
underlying (named pkg name u) = u
underlying (pointer t) = pointer t
underlying (basic k) = basic k
underlying slice = slice
underlying map_type = map_type
underlying (alias t) = underlying t
underlying other_type = other_type

unfoldable pub is_member : String → List String → Bool
is_member n [] = false
is_member n (x ∷ xs) = x == n || is_member n xs

-- a type of the package, by its name, that is marked
abbrev pub is_marked_name : List String → String → GoType → Bool
is_marked_name marked pkg_path (named (some p) name u) = p == pkg_path && is_member name marked
is_marked_name marked pkg_path (named none name u) = false
is_marked_name marked pkg_path (pointer t) = false
is_marked_name marked pkg_path (basic k) = false
is_marked_name marked pkg_path slice = false
is_marked_name marked pkg_path map_type = false
is_marked_name marked pkg_path (alias t) = false
is_marked_name marked pkg_path other_type = false

abbrev pub pointer_to : GoType → GoType
pointer_to t = if is_pointer t then t else pointer t

abbrev pub base_of : GoType → GoType
base_of (pointer t) = t
base_of (basic k) = basic k
base_of slice = slice
base_of map_type = map_type
base_of (named pkg name u) = named pkg name u
base_of (alias t) = alias t
base_of other_type = other_type

-- `if expr != nil {`, one statement, `}`
abbrev pub guarded : String → String → List String
guarded expr statement =
    String.◌++◌ "if " (String.◌++◌ expr " != nil {") ∷ String.◌++◌ "\t" statement ∷ "}" ∷ []

-- `expr = zero`, `expr = expr[:0]` and `clear(expr)`
abbrev pub assignment : String → String → String
assignment expr zero = String.◌++◌ expr (String.◌++◌ " = " zero)

abbrev pub truncation : String → String
truncation expr = String.◌++◌ expr (String.◌++◌ " = " (String.◌++◌ expr "[:0]"))

abbrev pub clearing : String → String
clearing expr = String.◌++◌ "clear(" (String.◌++◌ expr ")")

-- the inner switch on the underlying type of a named one
unfoldable pub reset_underlying : String → GoType → List String
reset_underlying expr (basic k) = assignment expr (basic_zero k) ∷ []
reset_underlying expr slice = truncation expr ∷ []
reset_underlying expr map_type = clearing expr ∷ []
reset_underlying expr (pointer t) = []
reset_underlying expr (named pkg name u) = []
reset_underlying expr (alias t) = []
reset_underlying expr other_type = []

-- the case of a pointer, by the underlying type of its element
unfoldable pub reset_pointee : String → GoType → List String
reset_pointee expr (basic k) = guarded expr (assignment (String.◌++◌ "*" expr) (basic_zero k))
reset_pointee expr slice = []
reset_pointee expr map_type = []
reset_pointee expr (pointer t) = []
reset_pointee expr (named pkg name u) = []
reset_pointee expr (alias t) = []
reset_pointee expr other_type = []

-- the outer switch of resetField
unfoldable pub reset_by_type : String → GoType → List String
reset_by_type expr (basic k) = assignment expr (basic_zero k) ∷ []
reset_by_type expr slice = truncation expr ∷ []
reset_by_type expr map_type = clearing expr ∷ []
reset_by_type expr (pointer t) = reset_pointee expr (underlying t)
reset_by_type expr (named pkg name u) = reset_underlying expr u
reset_by_type expr (alias t) = []
reset_by_type expr other_type = []

module _ (method_set : GoType → List Method) (marked : List String) (pkg_path : String) where
  unfoldable pub has_or_will_have_reset : GoType → Bool
  has_or_will_have_reset t =
      has_reset_method (method_set (pointer_to t)) || is_marked_name marked pkg_path (base_of t)

  unfoldable pub reset_field : String → String → GoType → List String
  reset_field recv name t =
      let expr = String.◌++◌ recv (String.◌++◌ "." name) in
      if has_or_will_have_reset t
      then (if is_pointer t
          then guarded expr (String.◌++◌ expr ".Reset()")
          else String.◌++◌ expr ".Reset()" ∷ [])
      else reset_by_type expr t

-- hasMarker: one comment
unfoldable pub is_marker : String → Bool
is_marker c =
    let line = trim_space (trim_prefix "//" c) in
    let opened = trim_space (trim_prefix "/*" line) in
    trim_space (trim_suffix opened "*/") == "generate:reset"

unfoldable pub any_marker : List String → Bool
any_marker [] = false
any_marker (c ∷ cs) = is_marker c || any_marker cs

-- hasMarker; no comment group is `none`
abbrev pub has_marker : Option (List String) → Bool
has_marker none = false
has_marker (some group) = any_marker group

-- receiverName
unfoldable pub receiver_name : (Char → String) → String → String
receiver_name to_lower String.[] = "r"
receiver_name to_lower (String.◌∷◌ c s) = to_lower c

-- markedStruct: its name, and the names and types of its fields
pub record MarkedStruct : Type 0 where
  pub name : String
  pub fields : List (String × GoType)

abbrev pub line : String → String
line s = String.◌++◌ s "\n"

unfoldable pub join_lines : List String → String
join_lines [] = ""
join_lines (s ∷ ss) = String.◌++◌ (line (String.◌++◌ "\t" s)) (join_lines ss)

module _ (method_set : GoType → List Method) (to_lower : Char → String)
    (pkg_name pkg_path : String) where
  unfoldable pub reset_fields : List String → String → List (String × GoType) → String
  reset_fields marked recv [] = ""
  reset_fields marked recv ((name, t) ∷ fs) =
      String.◌++◌ (join_lines (reset_field method_set marked pkg_path recv name t))
        (reset_fields marked recv fs)

  -- one round of the loop of buildFile
  unfoldable pub reset_method : List String → MarkedStruct → String
  reset_method marked m =
      let recv = receiver_name to_lower m.name in
      String.◌++◌
        (line (
          String.◌++◌ "// Reset zeros the fields of "
            (String.◌++◌ m.name "; safe to call on a nil receiver.")))
        (String.◌++◌
          (line (
            String.◌++◌ "func ("
              (String.◌++◌ recv (String.◌++◌ " *" (String.◌++◌ m.name ") Reset() {")))))
          (String.◌++◌ (line (String.◌++◌ "\tif " (String.◌++◌ recv " == nil {\n\t\treturn\n\t}")))
            (String.◌++◌ (reset_fields marked recv m.fields) "}\n\n")))

  unfoldable pub reset_methods : List String → List MarkedStruct → String
  reset_methods marked [] = ""
  reset_methods marked (m ∷ ms) = String.◌++◌ (reset_method marked m) (reset_methods marked ms)

  unfoldable pub names_of : List MarkedStruct → List String
  names_of [] = []
  names_of (m ∷ ms) = m.name ∷ names_of ms

  -- buildFile up to format.Source
  unfoldable pub build_file : List MarkedStruct → String
  build_file marked =
      String.◌++◌ "// Code generated by cmd/reset; DO NOT EDIT.\n\npackage "
        (String.◌++◌ pkg_name (String.◌++◌ "\n\n" (reset_methods (names_of marked) marked)))
