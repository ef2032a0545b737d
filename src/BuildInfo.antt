-- ===== src/BuildInfo.antt =====
-- pkg/buildinfo/buildinfo.go: the three lines that both programs print when they start.
use Prim.Native.String
use go_yandex_practicum_metr.Prelude.{String, ◌==◌, if◌then◌else◌}

abbrev pub placeholder : String
placeholder = "N/A"

-- orPlaceholder
abbrev pub or_placeholder : String → String
or_placeholder s = if s == "" then placeholder else s

abbrev labelled : String → String → String
labelled label value = String.◌++◌ label (String.◌++◌ (or_placeholder value) "\n")

-- Print: what is written, for the version, the date and the commit
abbrev pub print : String → String → String → String
print version date commit =
    String.◌++◌ (labelled "Build version: " version)
      (String.◌++◌ (labelled "Build date: " date) (labelled "Build commit: " commit))
