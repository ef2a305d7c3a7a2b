-- ===== src/Lifecycle/Store/Keys.antt =====
-- `logicalKey` of internal/lifecycle/model.go, the key of the store's map.
use stream_hive.Common.{◌≡◌, ◌↔◌, Bool, true, ◌&&◌, arith}
use stream_hive.Common.Bytes.{Bytes, bytes_equal, bytes_equal_iff}
use stream_hive.Common.Maps.{Key}
use stream_hive.Lifecycle.Records.{Record}

pub record LogicalKey : Type 0 where
  pub namespace : Bytes
  pub key : Bytes

unfoldable pub logical_key_of : Record → LogicalKey
logical_key_of r = record { namespace = r.namespace; key = r.logical_key }

unfoldable pub same_key : LogicalKey → LogicalKey → Bool
same_key a b = bytes_equal a.namespace b.namespace && bytes_equal a.key b.key

pub same_key_iff : (a b : LogicalKey) → (same_key a b ≡ true) ↔ (a ≡ b)
unfolding same_key
same_key_iff a b =
    ground (arith, bytes_equal_iff a.namespace b.namespace, bytes_equal_iff a.key b.key)

instance abbrev pub logical_key_key : Key LogicalKey
logical_key_key = record { same = same_key; same_iff = same_key_iff }
