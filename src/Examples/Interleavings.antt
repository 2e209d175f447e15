-- ===== src/Examples/Interleavings.antt =====
-- Two pieces are written to an object of the disk, and the writer is closed.
use gocica.Base.{true, false, [], ◌∷◌, none, some}
use gocica.Base.Go.{ok}
use gocica.Local.{Disk, WriteCloserWithUnlock, close_writer}
use gocica.Local.Interleaved.{Writing, Writers, with_writer}
use gocica.Examples.Disks.{Files, files, append_to}

abbrev writer : WriteCloserWithUnlock
writer = record { output_id = "a"; path = "/cache/o-a"; unlocked = false }

abbrev opened_disk : Disk Files
opened_disk = record {
  root_path = "/cache/";
  object_map = ("a", record { locked = true; ok = false }) ∷ [];
  files = ("/cache/o-a", []) ∷ [];
}

abbrev one_piece : Writing
one_piece = record { closer = writer; left = 2 ∷ [] }

abbrev whole : Writing
whole = record { closer = writer; left = [] }

abbrev opened_writers : Writers
opened_writers = with_writer "a" (some (record { closer = writer; left = 1 ∷ 2 ∷ [] })) (λ id. none)

abbrev half_writers : Writers
half_writers = with_writer "a" (some one_piece) opened_writers

abbrev whole_writers : Writers
whole_writers = with_writer "a" (some whole) half_writers

abbrev half_disk : Disk Files
half_disk = record opened_disk { files = (append_to "/cache/o-a" (1 ∷ []) opened_disk.files).1 }

abbrev whole_disk : Disk Files
whole_disk = record half_disk { files = (append_to "/cache/o-a" (2 ∷ []) half_disk.files).1 }

abbrev closed_disk : Disk Files
closed_disk = (close_writer files writer whole_disk).1.1
