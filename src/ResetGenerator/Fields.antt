-- ===== src/ResetGenerator/Fields.antt =====
-- What the statements mean that resetField writes for a field.
use Prim.Native.String
use go_yandex_practicum_metr.Prelude.{String}
