-- ===== src/PkgIo.antt =====
-- internal/pkg/io
pub mod JoinedWriter
pub mod Reader
pub mod SkipCharReader
pub mod DelimReader
