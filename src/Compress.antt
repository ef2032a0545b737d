-- ===== src/Compress.antt =====
-- GzipData of pkg/compress/gzip.go, over compress/gzip.
use go_yandex_practicum_metr.Prelude.{Option, none, some}
use go_yandex_practicum_metr.GoError.{GoError, Result, ok, err, wrap}
use go_yandex_practicum_metr.Crypto.{Bytes, or_wrap}
use go_yandex_practicum_metr.Middleware.{HttpLib}

-- what follows NewWriterLevel
abbrev pub on_writer : Option GoError → Result Bytes → Result Bytes
on_writer (some e) written = err (wrap "create gzip writer" e)
on_writer none written = written

-- GzipData; 1 is gzip.BestSpeed
unfoldable pub gzip_data : {Ip : Type 0} → HttpLib Ip → Bytes → Result Bytes
gzip_data lib body = on_writer (lib.gzip_level 1) (
    or_wrap "gzip write" (lib.gzip_write body)
      (λ buf. or_wrap "gzip close" (lib.gzip_close body buf) (λ closed. ok closed)))
