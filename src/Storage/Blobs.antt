-- ===== src/Storage/Blobs.antt =====
-- storage/store.go: the interface `BlobStore`, for a store whose state is an `S`. Each call is
-- given the answers of its context.
use stream_hive.Common.{Bool}
use stream_hive.Common.Bytes.{Bytes}
use stream_hive.Context.{Ctx}
use stream_hive.Errors.{Fallible}

pub record BlobStore (S : Type 0) : Type 0 where
  pub put : Ctx → Bytes → Bytes → S → Fallible Unit × S
  pub get : Ctx → Bytes → S → Fallible Bytes
  pub has : Ctx → Bytes → S → Fallible Bool
  pub delete : Ctx → Bytes → S → Fallible Unit × S
