-- ===== src/Remote/Storage.antt =====
-- internal/remote/storage/azure_blob_storage.go: the storage clients over the Azure SDK. The download
-- calls are in Remote.Download.
pub mod Blocks
use gocica.Base.{String, List, Bytes, length}
use gocica.Base.Int64.{Int64}
use gocica.Base.Go.{Result, Io, pure, within, wrapped, continue, ◌>>=◌, ◌>>◌}
use gocica.Remote.{UploadClient}
use gocica.Remote.Download.{BlobClient}

-- blockblob.Client of the SDK, as far as uploads use it.
pub record BlockBlob (S : Type 0) : Type 0 where
  pub stage_block : String → Bytes → Io S (Unit {0})
  pub stage_block_from_url : String → String → Int64 → Int64 → Io S (Unit {0})
  pub commit_block_list : List String → Io S (Unit {0})

-- blockblob.NewClientWithNoCredential, which reads the URL of the blob.
pub record Sdk (S : Type 0) : Type 0 where
  pub new_upload_client : String → Result (BlockBlob S)
  pub new_download_client : String → Result BlobClient

module _ {S : Type 0} where
  -- The two seeks give the size of the content, since a reader is over a slice in memory.
  unfoldable pub upload_block : BlockBlob S → String → Bytes → Io S Int64
  upload_block b block_id r = within "stage block" (b.stage_block block_id r) >> pure (length r)

  unfoldable pub upload_block_from_url :
      BlockBlob S → String → String → Int64 → Int64 → Io S (Unit {0})
  upload_block_from_url b block_id url offset size =
      within "stage block from url" (b.stage_block_from_url block_id url offset size)

  -- The size is not used.
  unfoldable pub commit_blocks : BlockBlob S → List String → Int64 → Io S (Unit {0})
  commit_blocks b block_ids size = within "commit block list" (b.commit_block_list block_ids)

  -- The methods of AzureUploadClient.
  unfoldable pub azure_upload_client : BlockBlob S → UploadClient S
  unfolding upload_block upload_block_from_url commit_blocks
  azure_upload_client b = record {
    upload_block = upload_block b;
    upload_block_from_url = upload_block_from_url b;
    commit = commit_blocks b;
  }

  unfoldable pub new_azure_upload_client : Sdk S → String → Result (UploadClient S)
  unfolding azure_upload_client
  new_azure_upload_client sdk url =
      elim (wrapped "create upload client" (sdk.new_upload_client url)) [
        | Result.ok b ↦ Result.ok (azure_upload_client b)
        | Result.err e ↦ Result.err e
      ]

  unfoldable pub new_azure_download_client : Sdk S → String → Result BlobClient
  new_azure_download_client sdk url = wrapped "create download client" (sdk.new_download_client url)
