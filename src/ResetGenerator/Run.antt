-- ===== src/ResetGenerator/Run.antt =====
-- cmd/reset/generate/generate.go: the directories that Run visits, the marked structs of a package,
-- and the files that Run writes. The loader of packages, go/format and the file system are
-- parameters.
use Prim.Native.String
use Prim.Native.Char.{Char}
use Prim.Native.Nat.{lt}
use go_yandex_practicum_metr.Prelude.{
  String, ◌==◌, Bool, true, false, not, ◌&&◌, ◌||◌, Option, none, some, List, [], ◌∷◌,
  if◌then◌else◌,
}
use go_yandex_practicum_metr.GoText.{has_prefix, has_suffix}
use go_yandex_practicum_metr.GoError.{GoError, Result, ok, err, wrap}
use go_yandex_practicum_metr.ResetGenerator.{
  GoType, Method, MarkedStruct, has_marker, is_member, build_file,
}

-- What filepath.WalkDir meets at a name: a directory, a file, or an error.
mutual
  pub data Entry : Type 0 where
    directory : String → Entries → Entry
    file : String → Entry
    unreadable : GoError → Entry

  pub data Entries : Type 0 where
    no_entries : Entries
    next_entry : Entry → Entries → Entries

abbrev pub join_path : String → String → String
join_path dir name = String.◌++◌ dir (String.◌++◌ "/" name)

abbrev pub is_skipped_dir : String → Bool
is_skipped_dir base =
    has_prefix "." base || base == "vendor" || base == "testdata" || base == "node_modules"

abbrev pub is_source : String → Bool
is_source name = has_suffix name ".go" && not (has_suffix name "_test.go")

abbrev pub add_dir : String → List String → List String
add_dir dir dirs = if is_member dir dirs then dirs else dir ∷ dirs

abbrev and_then : {A B : Type 0} → Result A → (A → Result B) → Result B
and_then (err e) f = err e
and_then (ok a) f = f a

-- the function that goDirs walks with, below the root, on the directories so far
unfoldable mutual
  pub walk : String → Entry → List String → Result (List String)
  walk dir (unreadable e) dirs = err e
  walk dir (file name) dirs = ok (if is_source name then add_dir dir dirs else dirs)
  walk dir (directory base es) dirs =
      let inner = walk_all (join_path dir base) es dirs in
      if is_skipped_dir base then ok dirs else inner

  pub walk_all : String → Entries → List String → Result (List String)
  walk_all dir no_entries dirs = ok dirs
  walk_all dir (next_entry e es) dirs =
      let rest = walk_all dir es in and_then (walk dir e dirs) rest

abbrev pub is_before : String → String → Bool
is_before a b = elim (String.compare a b) [ lt ↦ true | _ ↦ false ]

unfoldable pub insert_sorted : String → List String → List String
insert_sorted x [] = x ∷ []
insert_sorted x (y ∷ ys) = if is_before y x then y ∷ insert_sorted x ys else x ∷ y ∷ ys

-- sort.Strings
unfoldable pub sort_strings : List String → List String
sort_strings [] = []
sort_strings (x ∷ xs) = insert_sorted x (sort_strings xs)

unfoldable pub go_dirs : String → Entries → Result (List String)
go_dirs root es = and_then (walk_all root es []) (λ dirs. ok (sort_strings dirs))

-- a TypeSpec of a declaration, and a GenDecl by whether its token is TYPE
pub record TypeSpec : Type 0 where
  pub doc : Option (List String)
  pub name : String
  pub is_struct : Bool

pub record GenDecl : Type 0 where
  pub is_type : Bool
  pub doc : Option (List String)
  pub specs : List TypeSpec

abbrev pub is_single : List TypeSpec → Bool
is_single [] = false
is_single (s ∷ []) = true
is_single (s ∷ t ∷ ss) = false

-- `doc = ts.Doc`, or the one of the declaration
abbrev pub doc_of : GenDecl → TypeSpec → Option (List String)
doc_of d s = elim s.doc [ some c ↦ some c | none ↦ if is_single d.specs then d.doc else none ]

unfoldable pub marked_specs : GenDecl → List TypeSpec → List String → List String
marked_specs d [] names = names
marked_specs d (s ∷ ss) names =
    marked_specs d ss
      (if has_marker (doc_of d s) && s.is_struct then add_dir s.name names else names)

unfoldable pub marked_names : List GenDecl → List String → List String
marked_names [] names = names
marked_names (d ∷ ds) names =
    marked_names ds (if d.is_type then marked_specs d d.specs names else names)

-- packages.Package: its errors, the declarations of all its files, and the fields of a struct of its
-- scope
pub record Package : Type 0 where
  pub name : String
  pub path : String
  pub errors : List GoError
  pub decls : List GenDecl
  pub fields : String → Option (List (String × GoType))

unfoldable pub marked_structs : Package → List String → List MarkedStruct
marked_structs pkg [] = []
marked_structs pkg (n ∷ ns) = elim (pkg.fields n) [
  | none ↦ marked_structs pkg ns
  | some fs ↦ record { name = n; fields = fs } ∷ marked_structs pkg ns
]

-- findMarked, in the order of the names
unfoldable pub find_marked : Package → List MarkedStruct
find_marked pkg = marked_structs pkg (sort_strings (marked_names pkg.decls []))

-- packages.Load, the method sets of go/types, unicode.ToLower and format.Source
pub record GeneratorLib : Type 0 where
  pub load : String → Result (Option Package)
  pub method_set : GoType → List Method
  pub to_lower : Char → String
  pub format : String → Result String

abbrev formatted : Result String → Result (Option String)
formatted (err e) = err (wrap "format" e)
formatted (ok s) = ok (some s)

module _ (lib : GeneratorLib) where
  abbrev pub generate_marked : Package → List MarkedStruct → Result (Option String)
  generate_marked pkg [] = ok none
  generate_marked pkg (m ∷ ms) =
      formatted (lib.format (build_file lib.method_set lib.to_lower pkg.name pkg.path (m ∷ ms)))

  -- generatePackage from `pkgs[0]` on
  abbrev pub generate_loaded : Package → List GoError → Result (Option String)
  generate_loaded pkg (e ∷ es) = err (wrap "load" e)
  generate_loaded pkg [] = generate_marked pkg (find_marked pkg)

  -- generatePackage
  unfoldable pub generate_package : String → Result (Option String)
  generate_package dir =
      and_then (lib.load dir)
        (λ pkgs. elim pkgs [ none ↦ ok none | some pkg ↦ generate_loaded pkg pkg.errors ])

  module _ {W : Type 0} (write_file : String → String → W → Option GoError × W) where
    -- the loop of Run
    unfoldable pub generate_dirs : List String → W → Option GoError × W
    generate_dirs [] w = (none, w)
    generate_dirs (dir ∷ dirs) w =
        let rest = generate_dirs dirs in
        elim (generate_package dir) [
          | err e ↦ (some (wrap dir e), w)
          | ok data_or_none ↦ elim data_or_none [
            | none ↦ rest w
            | some text ↦
                let written = write_file (join_path dir "reset.gen.go") text w in
                elim written.0 [
                  | some e ↦ (some (wrap "write" e), written.1)
                  | none ↦ rest written.1
                ]
          ]
        ]

    unfoldable pub run : String → Entries → W → Option GoError × W
    run root es w = elim (go_dirs root es) [ err e ↦ (some e, w) | ok dirs ↦ generate_dirs dirs w ]
