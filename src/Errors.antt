-- ===== src/Errors.antt =====
-- The error values of the program, one type for all packages as in Go, and those that it passes on
-- from its callees.
use stream_hive.Common.{ℕ, Bool, true, false, ◌||◌, Result}

pub data Error : Type 0 where
  namespace_empty namespace_too_large logical_key_empty logical_key_too_large : Error
  authority_empty authority_too_large authority_not_printable : Error
  invalid_state invalid_blob_key zero_version record_too_large : Error
  conflict duplicate_logical_key nil_apply : Error
  journal_closed journal_corrupt journal_checksum journal_version_order journal_limit : Error
  checkpoint_corrupt checkpoint_checksum checkpoint_too_large : Error
  compaction_unsafe compaction_no_progress compaction_watermark compaction_base_mismatch : Error
  peer_behind_watermark snapshot_stale nil_checkpoint_path : Error
  nil_authority_path authority_corrupt authority_checksum authority_limit : Error
  authority_mismatch authority_version authority_exhausted : Error
  nil_watermark_path watermark_corrupt watermark_checksum watermark_limit : Error
  watermark_peer_invalid watermark_regression nil_watermark_book : Error
  nil_membership_path membership_not_configured membership_corrupt membership_checksum : Error
  membership_limit membership_peer_invalid membership_duplicate : Error
  membership_watermark_invalid membership_behind : Error
  repair_limit repair_frame_too_large repair_malformed repair_message_type repair_order : Error
  repair_watermark_mismatch repair_snapshot_required repair_snapshot_watermark : Error
  repair_acknowledgement capability_required : Error
  payload_too_large envelope_malformed envelope_trailing_data message_type : Error
  applier_blob_missing nil_applier_blob_store nil_repair_session_applier : Error
  -- storage.ErrNotFound, storage.ErrInvalidSHA256Key, storage.ErrSHA256Mismatch
  not_found invalid_sha256_key sha256_mismatch : Error
  -- the others of package storage
  invalid_sha256_hex_key blob_key_empty inventory_key_empty inventory_key_too_large : Error
  inventory_pager_invalid nil_inventory_lister nil_integrity_store empty_page_cursor : Error
  -- of package replication
  nil_store unknown_message_type not_applicable : Error
  message_key_empty message_key_too_large message_keys_empty too_many_keys data_too_large : Error
  -- of package p2p
  bad_magic frame_too_large : Error
  -- those of inventory.go
  page_cursor_not_last page_cursor_not_advanced : Error
  peer_auth_failed peer_auth_rejected peer_auth_identity_invalid : Error
  peer_auth_identity_not_allowed peer_auth_payload_too_large capabilities_too_many : Error
  capability_too_large capabilities_too_large capability_invalid : Error
  capability_duplicate capability_unknown : Error
  -- of session.go and apply.go
  nil_repair_session_peer nil_repair_session_coordinator : Error
  nil_applier_state nil_applier_journal : Error
  -- io.EOF and io.ErrUnexpectedEOF
  eof unexpected_eof : Error
  -- context.Canceled or context.DeadlineExceeded
  cancelled deadline_exceeded : Error
  -- an error of encoding/json
  json : Error
  -- an error of the operating system, by its number
  os : ℕ → Error
  -- `errors.Join(a, b)`
  join : Error → Error → Error
  -- `fmt.Errorf("%w: …", a)`
  wrap : Error → Error

abbrev pub Fallible : Type 0 → Type 0
Fallible A = Result Error A

-- `errors.Is(err, target)`, by the test for the target
unfoldable pub errors_is : (Error → Bool) → Error → Bool
errors_is target (Error.join e f) = errors_is target e || errors_is target f
errors_is target (Error.wrap e) = errors_is target e
errors_is target e = target e

abbrev pub is_not_found : Error → Bool
is_not_found Error.not_found = true
is_not_found _ = false

abbrev pub is_mismatch : Error → Bool
is_mismatch Error.sha256_mismatch = true
is_mismatch _ = false

-- context.Canceled and context.DeadlineExceeded
abbrev pub is_cancelled : Error → Bool
is_cancelled Error.cancelled = true
is_cancelled _ = false

abbrev pub is_deadline : Error → Bool
is_deadline Error.deadline_exceeded = true
is_deadline _ = false
