-- ===== src/Remote/Blob.antt =====
-- The remote blob: what the code relies on of the block storage behind an `UploadClient`, and what
-- it means that a blob holds the outputs of its header.
use gocica.Base.{
  ◌<◌, ℕ, ◌≡◌, refl, sym, ◌⊎◌, inl, inr, ap, List, [], ◌∷◌, ◌++◌, append_assoc, Option, none, some,
  String, Bytes, length, slice, All, false, arith, eq_iff,
}
use gocica.Base.Go.{ok}
use gocica.Base.Table.{contains}
use gocica.Proto.{ActionsOutput}
use gocica.Remote.{UploadClient, Random}
use gocica.Remote.Layout.{IsLayout}

abbrev pub Blocks : Type 0
Blocks = String → Option Bytes

-- The blocks of a list one behind the other, if all are there.
abbrev pub join_blocks : Option Bytes → Option Bytes → Option Bytes
join_blocks (some b) (some rest) = some (b ++ rest)
join_blocks (some b) none = none
join_blocks none rest = none

unfoldable pub gather : Blocks → List String → Option Bytes
gather blocks [] = some []
gather blocks (id ∷ ids) = join_blocks (blocks id) (gather blocks ids)

-- After a call that writes block `id`, in success or failure, each block is as it was, or it is
-- block `id` and holds `b`.
abbrev pub Writes : Blocks → Blocks → String → Bytes → Type 0
Writes before after id b = (j : String) → (after j ≡ before j) ⊎ ((j ≡ id) × (after j ≡ some b))

-- A block that is not in a list does not change what the list gathers.
pub gather-Writes :
    {before after : Blocks} {id : String} {b : Bytes} (ids : List String)
    → Writes before after id b
    → contains id ids ≡ false
    → gather after ids ≡ gather before ids
unfolding gather contains
gather-Writes [] w h = refl
gather-Writes {before} {after} {id} (j ∷ js) w h = elim (w j) [
  | inl same ↦ rw (same, gather-Writes js w (ground arith))
  | inr (e, now) ↦ absurd (ground (arith, eq_iff j id))
]

join_blocks-some :
    (x rest : Option Bytes) {a : Bytes}
    → join_blocks x rest ≡ some a
    → (p : Bytes) × (q : Bytes) × (x ≡ some p) × (rest ≡ some q) × (a ≡ p ++ q)
join_blocks-some (some p) (some q) h = (p, q, refl, refl, cc)
join_blocks-some (some p) none h = cc
join_blocks-some none rest h = cc

pub gather-append :
    (blocks : Blocks) (xs ys : List String) {a b : Bytes}
    → gather blocks xs ≡ some a
    → gather blocks ys ≡ some b
    → gather blocks (xs ++ ys) ≡ some (a ++ b)
unfolding gather
gather-append blocks [] ys h k = ground (arith, k)
gather-append blocks (x ∷ xs) ys {a} {b} h k =
    let (p, q, first, rest, e) = join_blocks-some (blocks x) (gather blocks xs) h in
    rw (first, gather-append blocks xs ys rest k, e) (ap some (sym (append_assoc p q b)))

-- Block storage: staging a block stores it under its id, committing a list of ids makes the blob of
-- the staged blocks in that order. `remote` is the content behind a URL; nothing is said of the copy of
-- an empty range, which the uploader does not ask for. The random source is beside the storage.
pub record IsBlobStore {S : Type 0} (c : UploadClient S) (rand : Random S) (remote : String → Bytes)
    : Type 0 where
  pub staged : S → Blocks
  pub committed : S → Option Bytes
  pub upload_block_writes :
      (id : String) (b : Bytes) (s : S) → Writes (staged s) (staged (c.upload_block id b s).1) id b
  pub upload_block_ok :
      (id : String) (b : Bytes) (s : S) (n : ℕ)
      → (c.upload_block id b s).0 ≡ ok n
      → (n ≡ length b) × (staged (c.upload_block id b s).1 id ≡ some b)
  pub upload_url_writes :
      (id url : String) (offset size : ℕ) (s : S)
      → 0 < size
      → Writes
          (staged s)
          (staged (c.upload_block_from_url id url offset size s).1)
          id
          (slice offset size (remote url))
  pub upload_url_ok :
      (id url : String) (offset size : ℕ) (s : S)
      → 0 < size
      → (c.upload_block_from_url id url offset size s).0 ≡ ok tt
      → staged (c.upload_block_from_url id url offset size s).1 id
        ≡ some (slice offset size (remote url))
  pub commit_ok :
      (ids : List String) (size : ℕ) (s : S)
      → (c.commit ids size s).0 ≡ ok tt
      → committed (c.commit ids size s).1 ≡ gather (staged s) ids
  pub read_random : (n : ℕ) (s : S) → staged (rand.read n s).1 ≡ staged s

-- `held` is the blob behind its header. It holds the content of each output at its offset.
abbrev pub HoldsOutput : (String → Bytes) → Bytes → ActionsOutput → Type 0
HoldsOutput content held o = slice o.offset o.size held ≡ content o.id

-- The outputs lie one behind the other from 0 to the total size, and each is there.
pub record HoldsOutputs (content : String → Bytes) (held : Bytes) (outputs : List ActionsOutput)
    (total : ℕ) : Type 0 where
  pub layout : IsLayout 0 outputs total
  pub size : length held ≡ total
  pub contents : All (HoldsOutput content held) outputs
