-- ===== src/Examples/Replica.antt =====
-- A replica with a store in memory: a toy hash, an index that is a list, an applier and a session.
use stream_hive.Common.{refl, true, false, none, some, List, [], ◌∷◌, ◌++◌, take}
use stream_hive.Common.Bytes.{Bytes}
use stream_hive.Std.Json.{Json, first_value}
use stream_hive.Std.Sha256.{Sha256}
use stream_hive.Storage.Keys.{add_key, remove_key, keys_from}
use stream_hive.Storage.Memory.{BTree, MemoryStore}
use stream_hive.Storage.Memory.Index.{BTreeLaws}
use stream_hive.Lifecycle.Store.{Store}
use stream_hive.Lifecycle.Applier.{Applier, ApplyIo, SnapshotIo}
use stream_hive.Lifecycle.Repair.{RepairLimits, RepairAck, RepairBatch, batch_type, ack_type}
use stream_hive.Lifecycle.Transport.{lifecycle_capability}
use stream_hive.Lifecycle.Watermarks.{WatermarkBook}
use stream_hive.Lifecycle.Session.{RepairSession, World, AckIo, HandleIo}
use stream_hive.Context.{background}
use stream_hive.Lifecycle.Journal.Files.{atomic_fine}
use stream_hive.Lifecycle.Journal.Append.{append_fine}
use stream_hive.Lifecycle.Journal.Rewrite.{rewrite_fine}
use stream_hive.Examples.Samples.{limits, blob_key, second, third, at, journal, disk}

abbrev zeros : Bytes
zeros = 0 ∷ 0 ∷ 0 ∷ 0 ∷ 0 ∷ 0 ∷ 0 ∷ 0 ∷ []

-- the first 32 bytes of the data, filled up with zeros
instance abbrev pub toy_hash : Sha256
toy_hash = record { sum = λ bs. take 32 (bs ++ zeros ++ zeros ++ zeros ++ zeros) }

-- the ordered set as a list
instance abbrev pub list_tree : BTree (List Bytes)
list_tree = record {
  new = [];
  replace_or_insert = add_key;
  delete = remove_key;
  ascend = λ t. t;
  ascend_greater_or_equal = keys_from;
}

pub list_tree_laws : BTreeLaws list_tree
list_tree_laws = record {
  ascend-new = refl;
  ascend-insert = λ k t. refl;
  ascend-delete = λ k t. refl;
  ascend_from = λ p t. refl;
}

-- the blob that the sample records name, and another
abbrev pub blobs : MemoryStore (List Bytes)
blobs = record {
  entries = (blob_key, blob_key) ∷ (b'k' ∷ [], b'v' ∷ []) ∷ [];
  keys = some (blob_key ∷ (b'k' ∷ []) ∷ []);
}

abbrev pub held : Store
held = record {
  limits = limits;
  records = (record { namespace = second.namespace; key = second.logical_key }, second) ∷ [];
}

abbrev pub applier : Applier (MemoryStore (List Bytes))
applier = record { blobs = some blobs; state = held; journal = journal; limits = limits }

abbrev pub apply_fine : ApplyIo
apply_fine = record {
  entry = none;
  get = background;
  put = background;
  journal = background;
  append = append_fine;
}

abbrev pub snapshot_fine : SnapshotIo
snapshot_fine = record {
  entry = none;
  get = λ k. background;
  journal = background;
  install = record { checkpoint = atomic_fine; journal = rewrite_fine; close = none };
}

instance abbrev pub ack_codec : Json RepairAck
ack_codec = record {
  marshal = λ a. a.watermark.epoch ∷ a.watermark.sequence ∷ [];
  unmarshal = λ bs. some (record { kind = ack_type; watermark = at 0 0 });
  failure = λ bs. first_value;
}

abbrev pub repair_limits : RepairLimits
repair_limits = record {
  record_limits = limits;
  max_records = 4;
  max_logical_key_bytes = 100;
  max_metadata_bytes = 1000;
  max_frame_bytes = 1000;
}

abbrev pub session : RepairSession
session = record {
  capabilities = lifecycle_capability ∷ [];
  limits = repair_limits;
  applier = true;
  peer_id = b'x' ∷ [];
  snapshot = none;
  checkpoint_path = b'c' ∷ [];
  max_frame_bytes = 1000;
  reconcile_peer = false;
}

-- the peer's watermark is the end of the journal
abbrev pub book : WatermarkBook
book = record {
  path = b'w' ∷ [];
  max_peers = 2;
  max_peer_id = 8;
  max_bytes = 1000;
  watermarks = (b'x' ∷ [], at 1 2) ∷ [];
}

abbrev pub world : World (MemoryStore (List Bytes))
world = record {
  applier = applier;
  disk = disk;
  book = book;
  book_file = none;
  hello_received = false;
  hello_notify = false;
  ack_notify = false;
  sent = [];
}

abbrev pub ack_fine : AckIo
ack_fine = record { acknowledge = background; file = atomic_fine; context = none; write = none }

abbrev pub handle_fine : HandleIo
handle_fine = record {
  entry = none;
  apply = λ k. apply_fine;
  snapshot = snapshot_fine;
  ack = ack_fine;
}

abbrev pub batch : RepairBatch
batch = record { kind = batch_type; from = at 1 2; to = at 1 3; more = false; records = third ∷ [] }
