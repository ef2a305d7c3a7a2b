-- ===== src/Examples/DaemonRuns.antt =====
-- The exchange of an inventory, at concrete inputs.
use stream_hive.Common.{ℕ, ◌≡◌, refl, inr, false, none, some, List, [], ◌∷◌, ok, arith, take}
use stream_hive.Common.Bytes.{Bytes, bytes_equal, bytes_less}
use stream_hive.Common.Maps.{lookup, insert}
use stream_hive.Context.{background}
use stream_hive.Storage.Memory.{last_key}
use stream_hive.Storage.Keys.{keys_after, is_after}
use stream_hive.P2p.Frame.{frame_max}
use stream_hive.Replication.Protocol.{
  Limits, encode_blob_has, encode_key_list_message, validate_keys, validate_each, validate_key,
  normalize_limits,
}
use stream_hive.Daemon.Inventory.{
  Budget, Sent, FrameIo, PageIo, LimitedPager, send_blob_has_keys_budget, send_pages, keys_used,
  within_keys, page_size, check_cursor, send_loop, next_frame, first_count, inventory_batch_size,
  send_paged_blob_has_budget, send_inventory_exchange,
}
use stream_hive.Daemon.Inventory.Scheduler.{
  System, launched, sending, new_scheduler, start, begin, end_run, forget_id, Step, starts, runs,
  ends, Event, goes, forgets, Reach, here, step,
}
use stream_hive.Daemon.Inventory.Scheduler.Steps.{IsCounted, Reach-IsCounted}
use stream_hive.Daemon.Inventory.Scheduler.Exclusive.{IsExclusive, Reach-IsExclusive}
use stream_hive.Daemon.Inventory.Progress.{IsProgress, send_blob_has_keys_budget-IsProgress}
use stream_hive.Examples.ReplicationRuns.{message_codec, wire}

abbrev ks : List Bytes
ks = (b'a' ∷ []) ∷ (b'b' ∷ []) ∷ (b'c' ∷ []) ∷ []

abbrev fine : ℕ → FrameIo
fine k = record { ctx = background; write = none }

abbrev budget : Budget
budget = record { max_bytes = 20; max_keys = 2 }

abbrev fresh : Sent
fresh = record { keys = 0; bytes = 0; frames = [] }

send_blob_has_keys_budget-IsProgress_example :
    IsProgress wire
      (frame_max 100)
      budget
      ks
      fresh
      (send_blob_has_keys_budget fine ks wire 100 budget fresh)
send_blob_has_keys_budget-IsProgress_example =
    send_blob_has_keys_budget-IsProgress fine ks wire 100 budget fresh (inr (omega arith))

abbrev pager : LimitedPager
pager k after limit =
    ok (take limit (keys_after after ks), last_key (take limit (keys_after after ks)))

abbrev one_key : Limits
one_key = record wire { max_keys = 1 }

abbrev page_fine : ℕ → PageIo
page_fine k = record { entry = none; frames = fine }

-- a budget for one frame: the second page is not begun, and the cursor of the first is lost
restarts :
    send_inventory_exchange 5 page_fine
      (some pager)
      (ok [])
      one_key
      100
      (record { max_bytes = 10; max_keys = 0 })
      []
      []
    ≡ some (
      ok ([], false),
      record { keys = 1; bytes = 7; frames = (1 ∷ 1 ∷ 1 ∷ 0 ∷ 0 ∷ 1 ∷ 97 ∷ []) ∷ [] },
    )
unfolding send_inventory_exchange send_paged_blob_has_budget send_pages keys_used within_keys
    page_size keys_after check_cursor bytes_equal send_blob_has_keys_budget send_loop next_frame
    first_count encode_blob_has encode_key_list_message validate_keys validate_each validate_key
    normalize_limits inventory_batch_size is_after last_key frame_max bytes_less
restarts = refl

-- the peers are their keys
abbrev peer : Bytes
peer = b'p' ∷ []

-- a peer is started, and its run begins an exchange that the budget ends
abbrev begun : System Bytes
begun = begin peer (record (start none peer peer new_scheduler) { threads = [] })

abbrev paused : System Bytes
paused = end_run (ok (b'a' ∷ [], false)) peer peer (record begun { threads = [] })

started_thread : (start none peer peer new_scheduler).threads ≡ launched peer ∷ []
unfolding start lookup
started_thread = refl

begun_thread : begun.threads ≡ sending peer peer [] ∷ []
unfolding begin start lookup insert bytes_equal
begun_thread = refl

reached : Reach Step new_scheduler paused
reached =
    step (step (step here (starts none peer peer refl)) (runs [] [] peer started_thread refl))
      (ends [] [] peer peer [] (ok (b'a' ∷ [], false)) begun_thread refl)

Reach-IsExclusive_example : IsExclusive paused
Reach-IsExclusive_example = Reach-IsExclusive paused reached

-- the same, and the peer is forgotten while its wait goes on
reached_too : Reach Event new_scheduler (forget_id peer paused)
reached_too =
    step
      (step
        (step (step here (goes (starts none peer peer refl)))
          (goes (runs [] [] peer started_thread refl)))
        (goes (ends [] [] peer peer [] (ok (b'a' ∷ [], false)) begun_thread refl)))
      (forgets peer refl)

Reach-IsCounted_example : IsCounted (forget_id peer paused)
Reach-IsCounted_example = Reach-IsCounted (forget_id peer paused) reached_too
