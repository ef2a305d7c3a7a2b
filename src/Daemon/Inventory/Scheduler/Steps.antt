-- ===== src/Daemon/Inventory/Scheduler/Steps.antt =====
-- inventory.go: what holds of the scheduler after any number of steps.
use stream_hive.Common.{
  ℕ, ◌+◌, ◌-◌, ◌≡◌, refl, sym, ap, subst, ◌∙◌, ◌⊎◌, inl, inr, Bool, true, false, ◌&&◌, ◌||◌, not,
  Option, none, some, List, [], ◌∷◌, ◌++◌, ok, err, arith, length, if◌then◌else◌, Bool-cases,
  Option-cases,
}
use stream_hive.Common.Bytes.{Bytes}
use stream_hive.Common.Maps.{
  Map, bytes_key, lookup, insert, delete, length-insert_old, length-insert_new, AreDistinct,
  insert-AreDistinct, delete-AreDistinct, length-delete_old,
}
use stream_hive.Errors.{Error, Fallible}
use stream_hive.Daemon.Inventory.Scheduler.{
  Entry, Thread, launched, waiting, sending, System, new_scheduler, entry_of, count_new, start,
  forget_id, begin, is_failure, end_failed, end_limited, end_run, Step, starts, runs, wakes, stops,
  ends, Event, goes, forgets, Reach, here, step,
}

module _ {P : Type 0} where
  -- how many threads pass a test
  abbrev pub count : (Thread P → Bool) → List (Thread P) → ℕ
  count test [] = 0
  count test (t ∷ ts) = (if test t then 1 else 0) + count test ts

  count-append :
      (test : Thread P → Bool) (ts us : List (Thread P))
      → count test (ts ++ us) ≡ count test ts + count test us
  count-append test [] us = omega arith
  count-append test (t ∷ ts) us = omega (arith, count-append test ts us)

  -- a thread more in the middle of the list
  pub count-middle :
      (test : Thread P → Bool) (front : List (Thread P)) (t : Thread P) (back : List (Thread P))
      → count test (front ++ t ∷ back) ≡ (if test t then 1 else 0) + count test (front ++ back)
  count-middle test front t back =
      omega (arith, count-append test front (t ∷ back), count-append test front back)

  abbrev pub is_sending : Thread P → Bool
  is_sending (sending id peer cursor) = true
  is_sending _ = false

  -- No key has two entries, the gauge counts the entries, and every exchange that was started is
  -- counted as completed, limited or dropped, or is still going on.
  pub record IsCounted (s : System P) : Type 0 where
    pub distinct : AreDistinct s.entries
    pub gauge : s.counters.active ≡ length s.entries
    pub balance :
        s.counters.started
        ≡ s.counters.completed
          + s.counters.limited
          + s.counters.dropped
          + count is_sending s.threads

  -- where the entries change by one key written
  insert-IsCounted :
      (id : Bytes) (entry : Entry P) (s u : System P)
      → IsCounted s
      → u.entries ≡ insert id entry s.entries
      → ((lookup id s.entries ≡ none) × (u.counters.active ≡ s.counters.active + 1))
        ⊎ ((old : Entry P) × (lookup id s.entries ≡ some old)
            × (u.counters.active ≡ s.counters.active))
      → u.counters.started
        ≡ u.counters.completed
          + u.counters.limited
          + u.counters.dropped
          + count is_sending u.threads
      → IsCounted u
  insert-IsCounted id entry s u i e gauge balance = record {
    distinct =
        subst (λ (m : Map Bytes (Entry P)). AreDistinct m) (sym e)
          (insert-AreDistinct id entry s.entries i.distinct);
    gauge = elim gauge [
      | inl (new, up) ↦
          up ∙ ground (arith, i.gauge, ap length e, length-insert_new id entry s.entries new)
      | inr (old, found, same) ↦
          same ∙ i.gauge ∙ sym (length-insert_old id entry old s.entries found) ∙ sym (ap length e)
    ];
    balance = balance;
  }

  start-IsCounted :
      (ctx : Option Error) (id : Bytes) (peer : P) (s : System P)
      → IsCounted s
      → IsCounted (start ctx id peer s)
  unfolding start count_new
  start-IsCounted (some e) id peer s i = i
  start-IsCounted none id peer s i =
      let entry = entry_of peer (lookup id s.entries) in
      let launch = not entry.running && not entry.scheduled in
      insert-IsCounted id (record entry { scheduled = launch || entry.scheduled }) s
        (start none id peer s) i (ground arith)
        (elim (Option-cases (lookup id s.entries)) [
          | inl new ↦ inl (new, ground arith)
          | inr (old, e) ↦ inr (old, e, ground arith)
        ])
        (ground (arith, i.balance))

  forget_id-IsCounted : (id : Bytes) (s : System P) → IsCounted s → IsCounted (forget_id id s)
  unfolding forget_id
  forget_id-IsCounted id s i = elim (Option-cases (lookup id s.entries)) [
    | inl absent ↦ subst IsCounted (ground arith) i
    | inr (old, e) ↦
        let u : System P = record s {
          entries = delete id s.entries;
          counters = record s.counters { active = s.counters.active - 1 };
        } in
        let less : IsCounted u = record {
          distinct = delete-AreDistinct id s.entries i.distinct;
          gauge = omega (arith, i.gauge, length-delete_old id old s.entries i.distinct e);
          balance = i.balance;
        } in
        let same : u ≡ forget_id id s = ground arith in subst IsCounted same less
  ]

  -- a thread more is sending than is counted
  abbrev IsOwing : System P → Type 0
  IsOwing s =
      AreDistinct s.entries
      × (s.counters.active ≡ length s.entries)
      × (s.counters.started
          ≡ s.counters.completed
            + s.counters.limited
            + s.counters.dropped
            + (1 + count is_sending s.threads))

  begin-IsCounted : (id : Bytes) (s : System P) → IsCounted s → IsCounted (begin id s)
  unfolding begin
  begin-IsCounted id s i = elim (Option-cases (lookup id s.entries)) [
    | inl absent ↦ subst IsCounted (ground arith) i
    | inr (entry, e) ↦
        insert-IsCounted id (record entry { scheduled = false; running = true }) s (begin id s) i
          (ground arith) (inr (entry, e, ground arith)) (ground (arith, i.balance))
  ]

  end_limited-IsCounted :
      (next id : Bytes) (s : System P) → IsOwing s → IsCounted (end_limited next id s)
  unfolding end_limited
  end_limited-IsCounted next id s (distinct, gauge, owed) =
      let c = s.counters in
      let t : System P = record s { counters = record c { limited = c.limited + 1 } } in
      let paid : IsCounted t = record {
        distinct = distinct;
        gauge = gauge;
        balance = omega (arith, owed);
      } in
      elim (Option-cases (lookup id s.entries)) [
        | inl absent ↦
            let same : t ≡ end_limited next id s = ground arith in subst IsCounted same paid
        | inr (entry, e) ↦
            insert-IsCounted id (record entry { running = false; cursor = next; scheduled = true })
              t (end_limited next id s) paid (ground arith) (inr (entry, e, ground arith))
              (ground (arith, owed))
      ]

  end_run-IsCounted :
      (answer : Fallible (Bytes × Bool)) (id : Bytes) (peer : P) (s : System P)
      → IsOwing s
      → IsCounted (end_run answer id peer s)
  unfolding end_run end_failed
  end_run-IsCounted (err e) id peer s (distinct, gauge, owed) =
      let c = s.counters in
      let failed : System P = record s {
        counters = record c { send_errors = c.send_errors + 1; dropped = c.dropped + 1 };
        closed = peer ∷ s.closed;
      } in
      let dropped : System P = record s { counters = record c { dropped = c.dropped + 1 } } in
      elim (Bool-cases (is_failure e)) [
        | inl bad ↦ rw bad (
            forget_id-IsCounted id failed
              (record { distinct = distinct; gauge = gauge; balance = omega (arith, owed) }))
        | inr ended ↦ rw ended (
            forget_id-IsCounted id dropped
              (record { distinct = distinct; gauge = gauge; balance = omega (arith, owed) }))
      ]
  end_run-IsCounted (ok (next, true)) id peer s (distinct, gauge, owed) =
      let c = s.counters in
      forget_id-IsCounted id (record s { counters = record c { completed = c.completed + 1 } })
        (record { distinct = distinct; gauge = gauge; balance = omega (arith, owed) })
  end_run-IsCounted (ok (next, false)) id peer s owing = end_limited-IsCounted next id s owing

  -- without a thread that is not sending
  without-IsCounted :
      (s : System P) (front : List (Thread P)) (t : Thread P) (back : List (Thread P))
      → IsCounted s
      → s.threads ≡ front ++ t ∷ back
      → is_sending t ≡ false
      → IsCounted (record s { threads = front ++ back })
  without-IsCounted s front t back i e idle = record {
    distinct = i.distinct;
    gauge = i.gauge;
    balance =
        ground (arith, i.balance, ap (count is_sending) e, count-middle is_sending front t back);
  }

  Step-IsCounted : {s u : System P} → Step s u → IsCounted s → IsCounted u
  Step-IsCounted {s} (starts ctx id peer e) i =
      subst IsCounted (sym e) (start-IsCounted ctx id peer s i)
  Step-IsCounted {s} (runs front back id at e) i =
      subst IsCounted (sym e)
        (begin-IsCounted id _ (without-IsCounted s front (launched id) back i at refl))
  Step-IsCounted {s} (wakes front back id at e) i =
      subst IsCounted (sym e)
        (begin-IsCounted id _ (without-IsCounted s front (waiting id) back i at refl))
  Step-IsCounted {s} (stops front back id at e) i =
      subst IsCounted (sym e)
        (forget_id-IsCounted id _ (without-IsCounted s front (waiting id) back i at refl))
  Step-IsCounted {s} (ends front back id peer cursor answer at e) i = subst IsCounted (sym e) (
      end_run-IsCounted answer id peer _ (
        i.distinct,
        i.gauge,
        ground (
          arith,
          i.balance,
          ap (count is_sending) at,
          count-middle is_sending front (sending id peer cursor) back,
        ),
      ))

  Event-IsCounted : {s u : System P} → Event s u → IsCounted s → IsCounted u
  Event-IsCounted (goes st) i = Step-IsCounted st i
  Event-IsCounted {s} (forgets id e) i = subst IsCounted (sym e) (forget_id-IsCounted id s i)

  -- After any number of steps, `Forget` among them: no key has two entries, the gauge of active
  -- exchanges is the number of entries, and each exchange that was started is counted once as
  -- completed, limited or dropped, or is still going on.
  pub Reach-IsCounted : (s : System P) → Reach Event new_scheduler s → IsCounted s
  Reach-IsCounted s here = record { distinct = tt; gauge = refl; balance = refl }
  Reach-IsCounted s (step {t} r e) = Event-IsCounted e (Reach-IsCounted t r)
