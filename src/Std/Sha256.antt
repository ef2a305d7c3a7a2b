-- ===== src/Std/Sha256.antt =====
-- crypto/sha256, as its callers see it: the digest of some bytes. A theorem that needs the digest's
-- 32 bytes says so.
use stream_hive.Common.{◌≡◌, length}
use stream_hive.Common.Bytes.{Bytes}

pub record Sha256 : Type 0 where
  -- `sha256.Sum256(data)`
  pub sum : Bytes → Bytes

-- every digest has 32 bytes
abbrev pub HasDigests : Sha256 → Type 0
HasDigests s = (bs : Bytes) → length (s.sum bs) ≡ 32
