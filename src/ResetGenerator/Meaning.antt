-- ===== src/ResetGenerator/Meaning.antt =====
-- What statements of Go mean that may stand in a generated Reset, and what a Reset is to do to a
-- field, by its type. It models no code of the repository; the types are those of go/types.
use Prim.Native.String
use go_yandex_practicum_metr.Prelude.{
  ℕ, String, Option, none, some, List, [], ◌∷◌, ◌≡◌, ◌≢◌, ◌⊎◌, Any,
}
use go_yandex_practicum_metr.ResetGenerator.{
  BasicKind, bool_kind, untyped_bool, string_kind, untyped_string, number_kind, unsafe_pointer,
  GoType, basic, slice, map_type, pointer, named, alias, other_type, Method, underlying,
}

-- The value of a field, as far as Reset changes it: a scalar, a slice by its length, a map by its
-- size, a pointer, and anything else.
pub data Value : Type 0 where
  scalar length_of size_of opaque : ℕ → Value
  nil_pointer : Value
  points_to : Value → Value

abbrev pub through : (Value → Value) → Value → Value
through f (points_to v) = points_to (f v)
through f nil_pointer = nil_pointer
through f (scalar n) = scalar n
through f (length_of n) = length_of n
through f (size_of n) = size_of n
through f (opaque n) = opaque n

-- The literals of Go for the zero value of a basic type.
abbrev pub IsZeroLiteral : BasicKind → String → Type 0
IsZeroLiteral bool_kind z = z ≡ "false"
IsZeroLiteral untyped_bool z = z ≡ "false"
IsZeroLiteral string_kind z = z ≡ "\"\""
IsZeroLiteral untyped_string z = z ≡ "\"\""
IsZeroLiteral number_kind z = z ≡ "0"
IsZeroLiteral unsafe_pointer z = z ≡ "nil"

-- A method `Reset()` without parameters and results.
abbrev pub IsResetMethod : Method → Type 0
IsResetMethod m = (m.name ≡ "Reset") × (m.params ≡ 0) × (m.results ≡ 0)

-- The methods that can be called on a variable of the type: those of its pointer, or its own if it
-- is a pointer.
abbrev pub methods_on : (GoType → List Method) → GoType → List Method
methods_on method_set (pointer t) = method_set (pointer t)
methods_on method_set (basic k) = method_set (pointer (basic k))
methods_on method_set slice = method_set (pointer slice)
methods_on method_set map_type = method_set (pointer map_type)
methods_on method_set (named p n u) = method_set (pointer (named p n u))
methods_on method_set (alias t) = method_set (pointer (alias t))
methods_on method_set other_type = method_set (pointer other_type)

-- A marked struct of the package.
abbrev pub IsMarked : List String → String → GoType → Type 0
IsMarked marked pkg_path (named (some p) n u) = (p ≡ pkg_path) × Any (λ x. x ≡ n) marked
IsMarked marked pkg_path (named none n u) = ⊥
IsMarked marked pkg_path (pointer t) = ⊥
IsMarked marked pkg_path (basic k) = ⊥
IsMarked marked pkg_path slice = ⊥
IsMarked marked pkg_path map_type = ⊥
IsMarked marked pkg_path (alias t) = ⊥
IsMarked marked pkg_path other_type = ⊥

-- Reset() can be called on a variable of the type, now or once the file is written: it has that
-- method, or it is a marked struct or a pointer to one.
abbrev pub HasReset : (GoType → List Method) → List String → String → GoType → Type 0
HasReset method_set marked pkg_path t =
    Any IsResetMethod (methods_on method_set t)
    ⊎ IsMarked marked pkg_path t
    ⊎ ((u : GoType) × (t ≡ pointer u) × IsMarked marked pkg_path u)

-- The statements of Go that may stand in a Reset, on an expression of a type: their text, when they
-- are well typed, and what they do to its value. `reset` is what the method Reset of the type does,
-- and `Resettable` are the types that have it.
pub data Means (Resettable : GoType → Type 0) (reset : Value → Value)
    : String → GoType → List String → (Value → Value) → Type 0 where
  nothing : (expr : String) (t : GoType) → Means Resettable reset expr t [] (λ v. v)
  -- expr = z
  assigns :
      (expr : String) (k : BasicKind) (z : String)
      → IsZeroLiteral k z
      → Means Resettable reset expr
          (basic k)
          (String.◌++◌ expr (String.◌++◌ " = " z) ∷ [])
          (λ v. scalar 0)
  -- expr = expr[:0]
  truncates :
      (expr : String)
      → Means Resettable reset expr slice
          (String.◌++◌ expr (String.◌++◌ " = " (String.◌++◌ expr "[:0]")) ∷ [])
          (λ v. length_of 0)
  -- clear(expr)
  clears :
      (expr : String)
      → Means Resettable reset expr map_type
          (String.◌++◌ "clear(" (String.◌++◌ expr ")") ∷ [])
          (λ v. size_of 0)
  by_underlying :
      (expr : String) (p : Option String) (n : String) (u : GoType) (ls : List String)
      (f : Value → Value)
      → Means Resettable reset expr u ls f
      → Means Resettable reset expr (named p n u) ls f
  by_alias :
      (expr : String) (t : GoType) (ls : List String) (f : Value → Value)
      → Means Resettable reset expr t ls f
      → Means Resettable reset expr (alias t) ls f
  -- if expr != nil { s }, where s is about *expr
  if_not_nil :
      (expr s : String) (t : GoType) (f : Value → Value)
      → Means Resettable reset (String.◌++◌ "*" expr) t (s ∷ []) f
      → Means Resettable reset expr
          (pointer t)
          (String.◌++◌ "if " (String.◌++◌ expr " != nil {") ∷ String.◌++◌ "\t" s ∷ "}" ∷ [])
          (through f)
  -- expr.Reset()
  calls :
      (expr : String) (t : GoType)
      → ((u : GoType) → t ≢ pointer u)
      → Resettable t
      → Means Resettable reset expr t (String.◌++◌ expr ".Reset()" ∷ []) reset
  -- if expr != nil { expr.Reset() }
  calls_if_not_nil :
      (expr : String) (t : GoType)
      → Resettable (pointer t)
      → Means Resettable reset expr
          (pointer t)
          (String.◌++◌ "if " (String.◌++◌ expr " != nil {")
            ∷ String.◌++◌ "\t" (String.◌++◌ expr ".Reset()")
            ∷ "}"
            ∷ [])
          (through reset)

-- What Reset is to do to a field: a type with a method Reset resets itself, behind a pointer if that
-- is not nil.
abbrev pub reset_by_method : (Value → Value) → GoType → Value → Value
reset_by_method reset (pointer t) v = through reset v
reset_by_method reset (basic k) v = reset v
reset_by_method reset slice v = reset v
reset_by_method reset map_type v = reset v
reset_by_method reset (named p n u) v = reset v
reset_by_method reset (alias t) v = reset v
reset_by_method reset other_type v = reset v

-- For any other type, a scalar is zero, a slice and a map are empty, a scalar behind a pointer is
-- zero, and a nil pointer and all else is kept.
abbrev pub emptied_underlying : GoType → Value → Value
emptied_underlying (basic k) v = scalar 0
emptied_underlying slice v = length_of 0
emptied_underlying map_type v = size_of 0
emptied_underlying (pointer t) v = v
emptied_underlying (named p n u) v = v
emptied_underlying (alias t) v = v
emptied_underlying other_type v = v

abbrev pub emptied_pointee : GoType → Value → Value
emptied_pointee (basic k) v = through (λ w. scalar 0) v
emptied_pointee slice v = v
emptied_pointee map_type v = v
emptied_pointee (pointer t) v = v
emptied_pointee (named p n u) v = v
emptied_pointee (alias t) v = v
emptied_pointee other_type v = v

abbrev pub emptied_by_type : GoType → Value → Value
emptied_by_type (basic k) v = scalar 0
emptied_by_type slice v = length_of 0
emptied_by_type map_type v = size_of 0
emptied_by_type (pointer t) v = emptied_pointee (underlying t) v
emptied_by_type (named p n u) v = emptied_underlying u v
emptied_by_type (alias t) v = v
emptied_by_type other_type v = v

abbrev pub UsesNoUnsafePointer : GoType → Type 0
UsesNoUnsafePointer (basic k) = k ≢ unsafe_pointer
UsesNoUnsafePointer slice = Unit
UsesNoUnsafePointer map_type = Unit
UsesNoUnsafePointer (pointer t) = UsesNoUnsafePointer t
UsesNoUnsafePointer (named p n u) = UsesNoUnsafePointer u
UsesNoUnsafePointer (alias t) = UsesNoUnsafePointer t
UsesNoUnsafePointer other_type = Unit
