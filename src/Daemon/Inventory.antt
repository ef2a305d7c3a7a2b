-- ===== src/Daemon/Inventory.antt =====
-- inventory.go: the announcement of the keys that a store holds, to one peer, under a budget of bytes
-- and keys for one exchange, where 0 stands for a number that is not positive. The frames that were
-- written to the peer are a list. The metrics and the scheduler's timers are left out.
pub mod Progress
pub mod Scheduler
use stream_hive.Common.{
  ℕ, zero, suc, ◌+◌, ◌-◌, ◌/◌, Bool, true, false, ◌||◌, ◌&&◌, not, Option, none, some, List, [],
  ◌∷◌, ◌++◌, ok, err, check, fail_if, ◌>>=◌, ◌>>◌, length, take, drop, ltb, leb, ◌==◌,
  if◌then◌else◌,
}
use stream_hive.Common.Bytes.{Bytes, bytes_equal, bytes_less}
use stream_hive.Common.Sorting.{sort}
use stream_hive.Std.Json.{Json}
use stream_hive.Context.{Ctx, later}
use stream_hive.Errors
use stream_hive.Errors.{Error, Fallible}
use stream_hive.Storage.Memory.{last_key}
use stream_hive.P2p.Frame.{frame_max}
use stream_hive.Replication.Protocol.{Limits, Message, encode_blob_has}

-- `inventoryExchangeBudget`
pub record Budget : Type 0 where
  pub max_bytes : ℕ
  pub max_keys : ℕ

-- `sentKeys`, `sentBytes`, and the frames that the peer was sent
pub record Sent : Type 0 where
  pub keys : ℕ
  pub bytes : ℕ
  pub frames : List Bytes

-- for one frame: the answers of the context, and that of the write
pub record FrameIo : Type 0 where
  pub ctx : Ctx
  pub write : Option Error

unfoldable pub inventory_batch_size : Limits → ℕ
inventory_batch_size l = if l.max_keys == 0 then 4096 else l.max_keys

-- `budget.maxKeys > 0 && sentKeys >= budget.maxKeys`
unfoldable pub keys_used : Budget → ℕ → Bool
keys_used b n = ltb 0 b.max_keys && leb b.max_keys n

-- at most as many as the budget leaves
unfoldable pub within_keys : Budget → ℕ → ℕ → ℕ
within_keys b sent count =
    if ltb 0 b.max_keys && ltb (b.max_keys - sent) count then b.max_keys - sent else count

-- the number of keys that the first try for a frame takes
unfoldable pub first_count : Limits → Budget → ℕ → List Bytes → ℕ
unfolding inventory_batch_size within_keys
first_count l b sent keys =
    let batch = inventory_batch_size l in
    within_keys b sent (if ltb (length keys) batch then length keys else batch)

-- `ListKeyPage(ctx, cursor, limit)`: the answer to the k-th call
abbrev pub LimitedPager : Type 0
LimitedPager = ℕ → Bytes → ℕ → Fallible (List Bytes × Bytes)

-- for one page: the answer of the context, and those for its frames
pub record PageIo : Type 0 where
  pub entry : Option Error
  pub frames : ℕ → FrameIo

module _ ⦃messages : Json Message⦄ where
  -- the inner loop: the next frame, with the number of its keys; none where the budget of bytes is
  -- used. Each round halves the number, so that `count` rounds suffice.
  unfoldable pub next_frame :
      ℕ → Ctx → Limits → ℕ → Budget → Sent → List Bytes → ℕ → Option (Fallible (Option (ℕ × Bytes)))
  next_frame zero ctx l max b p keys count = none
  next_frame (suc n) ctx l max b p keys count =
      let half = next_frame n (later 1 ctx) l max b p keys (count / 2) in
      elim (do check (ctx 0); encode_blob_has (take count keys) l) [
        | err e ↦ some (err e)
        | ok payload ↦
            if ltb max (length payload)
            then (if count == 1 then some (err Error.frame_too_large) else half)
            else if ltb 0 b.max_bytes && ltb b.max_bytes (p.bytes + length payload)
            then (if ltb 1 count
                then half
                else if ltb 0 p.keys
                then some (ok none)
                else some (ok (some (count, payload))))
            else some (ok (some (count, payload)))
      ]

  -- the outer loop, on at most `n` frames, with the cursor so far
  unfoldable pub send_loop :
      ℕ
      → (ℕ → FrameIo)
      → Limits
      → ℕ
      → Budget
      → List Bytes
      → Bytes
      → Sent
      → Option (Fallible (Bytes × Bool) × Sent)
  send_loop n io l max b [] cursor p = some (ok (cursor, true), p)
  send_loop zero io l max b (k ∷ ks) cursor p = none
  send_loop (suc n) io l max b (k ∷ ks) cursor p =
      let count = first_count l b p.keys (k ∷ ks) in
      if keys_used b p.keys
      then some (ok (cursor, false), p)
      else elim (next_frame count (io 0).ctx l max b p (k ∷ ks) count) [
        | none ↦ none
        | some (err e) ↦ some (err e, p)
        | some (ok none) ↦ some (ok (cursor, false), p)
        | some (ok (some (m, payload))) ↦
            let rest =
              send_loop n (λ i. io (suc i)) l max b (drop m (k ∷ ks)) (last_key (take m (k ∷ ks)))
                (record {
                  keys = p.keys + m;
                  bytes = p.bytes + length payload;
                  frames = p.frames ++ payload ∷ [];
                }) in
            elim (io 0).write [ some e ↦ some (err e, p) | none ↦ rest ]
      ]

  unfoldable pub send_blob_has_keys_budget :
      (ℕ → FrameIo)
      → List Bytes
      → Limits
      → ℕ
      → Budget
      → Sent
      → Option (Fallible (Bytes × Bool) × Sent)
  send_blob_has_keys_budget io keys l max_frame b p =
      send_loop (length keys) io l (frame_max max_frame) b keys [] p

  -- the page's size, the smaller of a batch and the budget
  unfoldable pub page_size : Limits → Budget → ℕ
  unfolding inventory_batch_size
  page_size l b =
      let batch = inventory_batch_size l in
      if ltb 0 b.max_keys && ltb b.max_keys batch then b.max_keys else batch

  -- what is checked of a page that is not empty
  unfoldable pub check_cursor : Bytes → List Bytes → Bytes → Fallible Unit
  unfolding last_key
  check_cursor cursor keys next = do
    fail_if (length next == 0 || not (bytes_equal next (last_key keys))) Error.page_cursor_not_last
    fail_if (ltb 0 (length cursor) && not (bytes_less cursor next)) Error.page_cursor_not_advanced

  -- the loop over at most `n` pages, from the k-th on
  unfoldable pub send_pages :
      ℕ
      → (ℕ → PageIo)
      → LimitedPager
      → ℕ
      → Limits
      → ℕ
      → Budget
      → Bytes
      → Sent
      → Option (Fallible (Bytes × Bool) × Sent)
  send_pages zero io pager k l max_frame b cursor p = none
  send_pages (suc n) io pager k l max_frame b cursor p = elim (io k).entry [
    | some e ↦ some (err e, p)
    | none ↦
        if keys_used b p.keys
        then some (ok (cursor, false), p)
        else elim (pager k cursor (within_keys b p.keys (page_size l b))) [
          | err e ↦ some (err e, p)
          | ok ([], next) ↦ some (ok (cursor, true), p)
          | ok (x ∷ xs, next) ↦ elim (check_cursor cursor (x ∷ xs) next) [
            | err e ↦ some (err e, p)
            | ok _ ↦ elim (send_blob_has_keys_budget (io k).frames (x ∷ xs) l max_frame b p) [
              | none ↦ none
              | some (err e, after) ↦ some (err e, after)
              | some (ok (last, complete), after) ↦
                  let rest = send_pages n io pager (suc k) l max_frame b next after in
                  if complete then rest else some (ok (last, false), after)
            ]
          ]
        ]
  ]

  unfoldable pub send_paged_blob_has_budget :
      ℕ
      → (ℕ → PageIo)
      → LimitedPager
      → Limits
      → ℕ
      → Budget
      → Bytes
      → List Bytes
      → Option (Fallible (Bytes × Bool) × Sent)
  send_paged_blob_has_budget n io pager l max_frame b after frames =
      send_pages n io pager 0 l max_frame b after (record { keys = 0; bytes = 0; frames = frames })

  -- `sort.Search` for the first key behind `after`, and the keys from there on
  unfoldable pub seek : Bytes → List Bytes → List Bytes
  seek after [] = []
  seek after (x ∷ xs) =
      let rest = seek after xs in if length after == 0 || bytes_less after x then x ∷ xs else rest

  -- the branch for a lister without pages
  unfoldable pub send_listed :
      (ℕ → FrameIo)
      → Fallible (List Bytes)
      → Limits
      → ℕ
      → Budget
      → Bytes
      → List Bytes
      → Option (Fallible (Bytes × Bool) × Sent)
  send_listed io listed l max_frame b after frames =
      let start : Sent = record { keys = 0; bytes = 0; frames = frames } in
      elim listed [
        | err e ↦ some (err e, start)
        | ok keys ↦ elim (seek after (sort bytes_less keys)) [
          | [] ↦ some (ok (after, true), start)
          | x ∷ xs ↦ send_blob_has_keys_budget io (x ∷ xs) l max_frame b start
        ]
      ]

  -- `sendInventoryExchange`, with the pages of the lister if it has them
  unfoldable pub send_inventory_exchange :
      ℕ
      → (ℕ → PageIo)
      → Option LimitedPager
      → Fallible (List Bytes)
      → Limits
      → ℕ
      → Budget
      → Bytes
      → List Bytes
      → Option (Fallible (Bytes × Bool) × Sent)
  send_inventory_exchange n io (some pager) listed l max_frame b after frames =
      send_paged_blob_has_budget n io pager l max_frame b after frames
  send_inventory_exchange n io none listed l max_frame b after frames =
      send_listed (io 0).frames listed l max_frame b after frames
