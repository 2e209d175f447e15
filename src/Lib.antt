-- ===== src/Lib.antt =====
-- GoCICa: a cache program for the go command (GOCACHEPROG) on GitHub Actions.
--
-- The go command sends requests on stdin: get, put and close. protocol/proccess.go reads and answers
-- them, internal/cacheprog/cacheprog.go turns them into calls of a backend, and
-- internal/cacheprog/backend.go keeps the index of the cache over a local backend
-- (internal/local/disk.go) and a remote one (internal/remote/core). The remote cache is one blob: eight
-- bytes of a length, a protobuf header, and the outputs behind it. At the start download.go reads the
-- header and cuts the blob into local files through the joined writer of internal/pkg/io; in a session
-- upload.go stages a block for each new output and copies the outputs of the old blob, and at the end it
-- commits a new blob of all of them.
--
-- Modules and the code they model:
--   Base            Go's errors and results, int64 as a bit pattern, maps, lists over native numbers
--   Proto           the messages of proto/gocica/v1
--   PkgIo           internal/pkg/io: JoinedWriter with io.Copy into it (Pour is its specification), Reader
--                   (io.Reader and what its documentation asks for), DelimReader, SkipCharReader
--   Remote          the interfaces of internal/remote/core; Layout and Blob say what a blob holds
--   Remote.Upload   internal/remote/core/upload.go: generate_block_id, setup_base, upload_output,
--                   construct_outputs, create_header, commit
--   Remote.Download internal/remote/core/download.go up to GetOutputBlockURL, and the download calls of
--                   internal/remote/storage/azure_blob_storage.go
--   Remote.DownloadAll  DownloadAllOutputBlocks; Sinks are its writers
--   Remote.Storage  the clients of internal/remote/storage/azure_blob_storage.go
--   Remote.Backend  internal/remote/core/backend.go; Restart goes from one run to the next
--   Provider        internal/remote/provider: the cache service of GitHub Actions
--   CacheProg       internal/cacheprog/cacheprog.go; CacheProg.Backend is internal/cacheprog/backend.go
--   Local           internal/local/disk.go; Local.Backend puts it under a session of whole calls
--                   one after the other, Local.Interleaved lets the calls interleave
--   Locker          internal/pkg/locker/wait_success.go, as a step relation on its calls
--   Startup         internal/kessoku, and the fallback in main.go
--   Program         main.go with dev_flag.go and dummy_dev_flag.go; Files counts the open files
--   Metrics         internal/pkg/metrics/metrics.go; Metrics.ProcFs is procfs.go
--   Log             internal/pkg/log/logger.go, and the choice of the level in main.go
--   Protocol        protocol/model.go; Protocol.Process is protocol/proccess.go
--   Examples        concrete storages, files and requests
--
-- State is passed on explicitly; an operation returns a result and the new state, and what was written
-- before an error stays written. Goroutines of an errgroup are tasks that run one after the other in an
-- order that a parameter `schedule` gives; a handler call is one step. A call that waits for a lock
-- comes to `blocked`. Offsets and sizes are 64-bit patterns: `add64`, `sub64` and `lt64` wrap and
-- compare as int64 does.
--
-- Fuel: one Write of the joined writer gets 2 n + 1 rounds for n writers left, which its theorem shows
-- to be enough; the loop over the copy chunks gets the size of the range, the loop over download chunks
-- the number of outputs, and the decode loop any fuel above what is left of the input. The loops of
-- DelimReader and SkipCharReader get any fuel above the number of bytes that are left, since a round
-- reads a byte or meets the end.
--
-- Parameters: the block storage and its SDK, HTTP and JSON, random bytes, base64, protobuf, zstd, the
-- file system, kong, the profilers, procfs, encoding/csv and the clock. The records IsBlobStore,
-- IsBlockBlob, IsForeign, IsFileSystem, IsReader, Serves, IsReliable, IsFinite, IsEncoder, Decodes,
-- KeepsFiles and Counts say what is relied on.
--
-- Not modelled: the formatting of log messages, the set-up of the HTTP client, what is written to the
-- file that stdin is copied to for debugging, the options of the command line as kong reads them, and
-- generated code; the wrappers of internal/pkg/io and internal/pkg/json that only pass calls on. A
-- signal, a crash and the cancellation of a context are not modelled either: a run goes on to its end.
-- A run-time panic is an error value, with which the model goes on where the process would end.
pub mod Base
pub mod Proto
pub mod PkgIo
pub mod Remote
pub mod Protocol
pub mod Local
pub mod CacheProg
pub mod Provider
pub mod Locker
pub mod Metrics
pub mod Log
pub mod Startup
pub mod Program
pub mod Examples
