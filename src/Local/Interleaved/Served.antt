-- ===== src/Local/Interleaved/Served.antt =====
-- What the disk serves while its calls interleave.
use gocica.Base.{Option, String, Bytes}
use gocica.Base.Int64.{Int64}
use gocica.Base.Go.{Io}
use gocica.Local.{Disk, FileSystem}
use gocica.Local.Interleaved.{Writers}
use gocica.Local.Interleaved.Kept.{Good}

module _ {F : Type 0} (fs : FileSystem F) (write : String → Bytes → Io F (Unit {0}))
    (read : F → String → Option Bytes) (content : String → Bytes) where
  abbrev IsGood : Disk F → Writers → Type 0
  IsGood = Good fs write read content
