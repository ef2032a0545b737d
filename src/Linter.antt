-- ===== src/Linter.antt =====
-- cmd/linter/analyzer.go: the walk over the syntax of a package, and what it reports. The syntax is
-- go/ast as far as the walk looks at it: calls, names and selectors, and any other node by its
-- children in the order of ast.Inspect.
pub mod Calls
pub mod Walk
pub mod Reports
use Prim.Native.String
use Prim.Native.Char.{Char}
use go_yandex_practicum_metr.Prelude.{
  ℕ, String, ◌==◌, Bool, true, false, not, ◌&&◌, ◌||◌, Option, none, some, List, [], ◌∷◌, ◌++◌,
  if◌then◌else◌,
}
use go_yandex_practicum_metr.GoText.{has_prefix, has_suffix, contains}

mutual
  pub data Node : Type 0 where
    -- a CallExpr at a position: Fun and Args
    call : ℕ → Node → Nodes → Node
    ident : String → Node
    -- a SelectorExpr: X and Sel.Name
    selector : Node → String → Node
    other : Nodes → Node

  pub data Nodes : Type 0 where
    no_nodes : Nodes
    next_node : Node → Nodes → Nodes

-- a declaration: a FuncDecl, by whether it has a receiver, its name and its body, or another one
pub data Decl : Type 0 where
  func_decl : Bool → String → Option Node → Decl
  other_decl : Node → Decl

-- a file: its name, the texts of its comments by groups, and its declarations
pub record File : Type 0 where
  pub filename : String
  pub comments : List (List String)
  pub decls : List Decl

-- what pass.Reportf is given
abbrev pub Report : Type 0
Report = ℕ × String

abbrev report_if : Bool → ℕ → String → List Report
report_if true pos message = (pos, message) ∷ []
report_if false pos message = []

abbrev check_selector : Bool → ℕ → Node → String → List Report
check_selector in_main pos (ident pkg) sel =
    if pkg == "log" && has_prefix "Fatal" sel
    then report_if (not in_main) pos
        (String.◌++◌ "log." (String.◌++◌ sel " is forbidden outside main() of package main"))
    else if pkg == "os" && sel == "Exit"
    then report_if (not in_main) pos "os.Exit is forbidden outside main() of package main"
    else []
check_selector in_main pos (call q f args) sel = []
check_selector in_main pos (selector x s) sel = []
check_selector in_main pos (other ns) sel = []

-- checkCall, of a call by its position and its Fun
unfoldable pub check_call : Bool → ℕ → Node → List Report
check_call in_main pos (ident name) = report_if (name == "panic") pos "panic call is forbidden"
check_call in_main pos (selector x sel) = check_selector in_main pos x sel
check_call in_main pos (call q f args) = []
check_call in_main pos (other ns) = []

-- ast.Inspect with the function of runNoExit: a node before its children
unfoldable mutual
  pub inspect : Bool → Node → List Report
  inspect in_main (call pos f args) =
      check_call in_main pos f ++ (inspect in_main f ++ inspect_all in_main args)
  inspect in_main (ident name) = []
  inspect in_main (selector x sel) = inspect in_main x
  inspect in_main (other ns) = inspect_all in_main ns

  pub inspect_all : Bool → Nodes → List Report
  inspect_all in_main no_nodes = []
  inspect_all in_main (next_node n ns) = inspect in_main n ++ inspect_all in_main ns

-- isGenerated
unfoldable pub is_mark : String → Bool
is_mark c = has_prefix "// Code generated" c && contains c "DO NOT EDIT"

unfoldable pub any_mark : List String → Bool
any_mark [] = false
any_mark (c ∷ cs) = is_mark c || any_mark cs

unfoldable pub is_generated : List (List String) → Bool
is_generated [] = false
is_generated (g ∷ gs) = any_mark g || is_generated gs

abbrev pub is_main_func : String → Bool → String → Bool
is_main_func pkg has_recv name = pkg == "main" && not has_recv && name == "main"

unfoldable pub check_decl : String → Decl → List Report
check_decl pkg (other_decl n) = []
check_decl pkg (func_decl has_recv name none) = []
check_decl pkg (func_decl has_recv name (some body)) = inspect (is_main_func pkg has_recv name) body

unfoldable pub check_decls : String → List Decl → List Report
check_decls pkg [] = []
check_decls pkg (d ∷ ds) = check_decl pkg d ++ check_decls pkg ds

abbrev pub is_skipped : File → Bool
is_skipped f = is_generated f.comments || has_suffix f.filename "_test.go"

-- runNoExit
unfoldable pub run_no_exit : String → List File → List Report
run_no_exit pkg [] = []
run_no_exit pkg (f ∷ fs) =
    let rest = run_no_exit pkg fs in if is_skipped f then rest else check_decls pkg f.decls ++ rest
