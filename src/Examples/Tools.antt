-- ===== src/Examples/Tools.antt =====
-- The linter and the generator of Reset methods, at concrete inputs.

use go_yandex_practicum_metr.Prelude.{Any, ◌≡◌, ◌↔◌, refl, false, some, List, [], ◌∷◌}
use go_yandex_practicum_metr.GoText.{has_prefix, has_suffix, contains}
use go_yandex_practicum_metr.Linter.{
  Node, call, ident, selector, other, no_nodes, next_node, func_decl, File, is_skipped, run_no_exit,
  check_decls, check_decl, inspect, check_call, is_generated, any_mark, is_mark,
}
use go_yandex_practicum_metr.Linter.Calls.{Reported}
use go_yandex_practicum_metr.Linter.Reports.{IsAtFault, run_no_exit-Reported}
use go_yandex_practicum_metr.ResetGenerator.{
  GoType, basic, string_kind, pointer, named, has_or_will_have_reset, has_reset_method, reset_field,
  reset_by_type, reset_pointee, basic_zero, is_member,
}
use go_yandex_practicum_metr.ResetGenerator.Meaning.{HasReset}

-- { log.Fatal(); f(panic()) } in a function `run`
abbrev body : Node
body = other (
    next_node (call 1 (selector (ident "log") "Fatal") no_nodes) (
      next_node (call 2 (ident "f") (next_node (call 3 (ident "panic") no_nodes) no_nodes))
        no_nodes))

abbrev files : List File
files =
    record {
      filename = "run.go";
      comments = ("// run starts the program" ∷ []) ∷ [];
      decls = func_decl false "run" (some body) ∷ [];
    }
    ∷ []

run_no_exit-Reported_example :
    Reported (3, "panic call is forbidden") (run_no_exit "main" files)
    ↔ Any
        (λ f.
          (is_skipped f ≡ false)
          × Any (λ d. IsAtFault "main" d (3, "panic call is forbidden")) f.decls)
        files
run_no_exit-Reported_example = run_no_exit-Reported "main" files (3, "panic call is forbidden")

-- Both calls are found, in the order of the walk.
reports_of_run :
    run_no_exit "main" files
    ≡ (1, "log.Fatal is forbidden outside main() of package main")
      ∷ (3, "panic call is forbidden")
      ∷ []
unfolding run_no_exit check_decls check_decl inspect check_call has_prefix has_suffix contains
    is_generated any_mark is_mark
reports_of_run = refl

-- A pointer to a named string, in a package where one struct is marked.
abbrev label : GoType
label = pointer (named (some "app") "Label" (basic string_kind))

abbrev IsResettable : GoType → Type 0
IsResettable = HasReset (λ t. []) ("Metrics" ∷ []) "app"

label_lines :
    reset_field (λ t. []) ("Metrics" ∷ []) "app" "m" "Label" label
    ≡ "if m.Label != nil {" ∷ "\t*m.Label = \"\"" ∷ "}" ∷ []
unfolding reset_field has_or_will_have_reset has_reset_method reset_by_type reset_pointee basic_zero
    is_member
label_lines = refl
