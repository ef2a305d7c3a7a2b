-- ===== src/Daemon/Inventory/Scheduler.antt =====
-- inventory.go: the scheduler of exchanges, at most one entry for each peer. A method is a function
-- from the old state, between taking the lock and giving it back; `run` is in two halves, in front of
-- the exchange and behind it. The goroutines that it starts are the threads of a system, and a step
-- of the system is one of these functions. The metrics are present, and move in
-- the step of the lock next to them; the delay of a wait is left out.
pub mod Steps
pub mod Exclusive
use stream_hive.Common.{
  ℕ, suc, ◌+◌, ◌-◌, ◌≡◌, Bool, true, false, ◌||◌, ◌&&◌, not, Option, none, some, List, [], ◌∷◌,
  ◌++◌, Result, ok, err, if◌then◌else◌,
}
use stream_hive.Common.Bytes.{Bytes}
use stream_hive.Common.Maps.{Map, bytes_key, lookup, insert, delete}
use stream_hive.Errors.{Error, Fallible, errors_is, is_cancelled, is_deadline}

-- `inventoryExchangeEntry`
pub record Entry (P : Type 0) : Type 0 where
  pub peer : P
  pub cursor : Bytes
  pub running : Bool
  pub scheduled : Bool

-- the metrics of exchanges; `active` is a gauge
pub record Counters : Type 0 where
  pub started : ℕ
  pub completed : ℕ
  pub limited : ℕ
  pub dropped : ℕ
  pub send_errors : ℕ
  pub active : ℕ

-- a goroutine: `go s.run(id)` that has not begun, `go s.wait(id)`, and a run within its exchange
pub data Thread (P : Type 0) : Type 0 where
  launched : Bytes → Thread P
  waiting : Bytes → Thread P
  sending : Bytes → P → Bytes → Thread P

-- `inventoryExchangeScheduler`, its threads, and the peers that it closed
pub record System (P : Type 0) : Type 0 where
  pub entries : Map Bytes (Entry P)
  pub counters : Counters
  pub threads : List (Thread P)
  pub closed : List P

abbrev pub no_counts : Counters
no_counts = record {
  started = 0;
  completed = 0;
  limited = 0;
  dropped = 0;
  send_errors = 0;
  active = 0;
}

-- `!errors.Is(err, context.Canceled) && !errors.Is(err, context.DeadlineExceeded)`
unfoldable pub is_failure : Error → Bool
unfolding errors_is
is_failure e = not (errors_is is_cancelled e) && not (errors_is is_deadline e)

module _ {P : Type 0} where
  abbrev pub new_scheduler : System P
  new_scheduler = record { entries = []; counters = no_counts; threads = []; closed = [] }

  abbrev pub put_entry : Bytes → Entry P → System P → System P
  put_entry id entry s = record s { entries = insert id entry s.entries }

  abbrev pub spawn : Thread P → System P → System P
  spawn t s = record s { threads = t ∷ s.threads }

  -- `entry = &inventoryExchangeEntry{peer: peer}`, where there is none
  unfoldable pub entry_of : P → Option (Entry P) → Entry P
  entry_of peer (some entry) = record entry { peer = peer }
  entry_of peer none = record { peer = peer; cursor = []; running = false; scheduled = false }

  unfoldable pub count_new : Option (Entry P) → Counters → Counters
  count_new (some entry) c = c
  count_new none c = record c { active = c.active + 1 }

  -- `Start`, for the peer whose key is `id`
  unfoldable pub start : Option Error → Bytes → P → System P → System P
  unfolding entry_of count_new
  start (some e) id peer s = s
  start none id peer s =
      let found = lookup id s.entries in
      let entry = entry_of peer found in
      let launch = not entry.running && not entry.scheduled in
      let scheduled = record entry { scheduled = launch || entry.scheduled } in
      let counted = record s { counters = count_new found s.counters } in
      let after = put_entry id scheduled counted in
      if launch then spawn (launched id) after else after

  -- `finish` and `forgetID`, whose bodies are one
  unfoldable pub forget_id : Bytes → System P → System P
  forget_id id s = elim (lookup id s.entries) [
    | none ↦ s
    | some _ ↦ record s {
      entries = delete id s.entries;
      counters = record s.counters { active = s.counters.active - 1 };
    }
  ]

  -- `run` up to the exchange
  unfoldable pub begin : Bytes → System P → System P
  begin id s = elim (lookup id s.entries) [
    | none ↦ s
    | some entry ↦ spawn (sending id entry.peer entry.cursor) (
        put_entry id (record entry { scheduled = false; running = true })
          (record s { counters = record s.counters { started = s.counters.started + 1 } }))
  ]

  -- the branch of `run` for an error
  unfoldable pub end_failed : Error → Bytes → P → System P → System P
  unfolding is_failure forget_id
  end_failed e id peer s =
      let c = s.counters in
      if is_failure e
      then forget_id id (record s {
        counters = record c { send_errors = c.send_errors + 1; dropped = c.dropped + 1 };
        closed = peer ∷ s.closed;
      })
      else forget_id id (record s { counters = record c { dropped = c.dropped + 1 } })

  -- that for an exchange that its budget ended
  unfoldable pub end_limited : Bytes → Bytes → System P → System P
  end_limited next id s =
      let counted = record s {
        counters = record s.counters { limited = s.counters.limited + 1 };
      } in
      elim (lookup id s.entries) [
        | none ↦ counted
        | some entry ↦ spawn (waiting id) (
            put_entry id (record entry { running = false; cursor = next; scheduled = true })
              counted)
      ]

  -- `run` behind the exchange, for its answer
  unfoldable pub end_run : Fallible (Bytes × Bool) → Bytes → P → System P → System P
  unfolding end_failed end_limited forget_id
  end_run (err e) id peer s = end_failed e id peer s
  end_run (ok (next, complete)) id peer s =
      if complete
      then forget_id id
          (record s { counters = record s.counters { completed = s.counters.completed + 1 } })
      else end_limited next id s

  -- any thread goes on, or `Start` is called
  pub data Step (s u : System P) : Type 0 where
    starts : (ctx : Option Error) (id : Bytes) (peer : P) → u ≡ start ctx id peer s → Step s u
    runs :
        (front back : List (Thread P)) (id : Bytes)
        → s.threads ≡ front ++ launched id ∷ back
        → u ≡ begin id (record s { threads = front ++ back })
        → Step s u
    wakes :
        (front back : List (Thread P)) (id : Bytes)
        → s.threads ≡ front ++ waiting id ∷ back
        → u ≡ begin id (record s { threads = front ++ back })
        → Step s u
    stops :
        (front back : List (Thread P)) (id : Bytes)
        → s.threads ≡ front ++ waiting id ∷ back
        → u ≡ forget_id id (record s { threads = front ++ back })
        → Step s u
    ends :
        (front back : List (Thread P)) (id : Bytes) (peer : P) (cursor : Bytes)
        (answer : Fallible (Bytes × Bool))
        → s.threads ≡ front ++ sending id peer cursor ∷ back
        → u ≡ end_run answer id peer (record s { threads = front ++ back })
        → Step s u

  -- that, or `Forget` is called
  pub data Event (s u : System P) : Type 0 where
    goes : Step s u → Event s u
    forgets : (id : Bytes) → u ≡ forget_id id s → Event s u

  pub data Reach (R : System P → System P → Type 0) (s : System P) : System P → Type 0 where
    here : Reach R s s
    step : {t u : System P} → Reach R s t → R t u → Reach R s u
