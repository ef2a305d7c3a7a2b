-- ===== src/Daemon/Inventory/Scheduler/Exclusive.antt =====
-- inventory.go: the threads that the scheduler has for one peer, while no peer is forgotten.
use stream_hive.Common.{
  ℕ, ◌+◌, ◌≡◌, refl, sym, ap, subst, ◌∙◌, inl, inr, Bool, true, false, ◌&&◌, ◌||◌, not, Option,
  none, some, List, [], ◌∷◌, ◌++◌, ok, err, arith, if◌then◌else◌, Bool-cases, Option-cases,
}
use stream_hive.Common.Bytes.{Bytes, bytes_equal, bytes_equal_iff}
use stream_hive.Common.Maps.{bytes_key, lookup, insert, lookup-insert, lookup-delete}
use stream_hive.Errors.{Error, Fallible}
use stream_hive.Daemon.Inventory.Scheduler.{
  Entry, Thread, launched, waiting, sending, System, new_scheduler, entry_of, start, forget_id,
  begin, is_failure, end_failed, end_limited, end_run, Step, starts, runs, wakes, stops, ends,
  Reach, here, step,
}
use stream_hive.Daemon.Inventory.Scheduler.Steps.{count, count-middle}

abbrev pub one_if : Bool → ℕ
one_if b = if b then 1 else 0

abbrev at_key : Bytes → Bytes → ℕ
at_key id j = one_if (bytes_equal id j)

abbrev nowhere : Bytes → ℕ
nowhere j = 0

module _ {P : Type 0} where
  -- a thread that is going to run for the peer with the key
  abbrev pub is_pending : Bytes → Thread P → Bool
  is_pending id (launched j) = bytes_equal j id
  is_pending id (waiting j) = bytes_equal j id
  is_pending id (sending j peer cursor) = false

  -- one that is within an exchange with it
  abbrev pub is_exchanging : Bytes → Thread P → Bool
  is_exchanging id (sending j peer cursor) = bytes_equal j id
  is_exchanging id _ = false

  -- an entry is either scheduled or running, and has one thread that is pending or exchanging; a peer
  -- without an entry has none
  abbrev pub Fits : Option (Entry P) → ℕ → ℕ → Type 0
  Fits none pending exchanging = (pending ≡ 0) × (exchanging ≡ 0)
  Fits (some entry) pending exchanging =
      (entry.running ≡ not entry.scheduled)
      × (pending ≡ one_if entry.scheduled)
      × (exchanging ≡ one_if entry.running)

  abbrev pub IsExclusive : System P → Type 0
  IsExclusive s =
      (id : Bytes)
      → Fits (lookup id s.entries) (count (is_pending id) s.threads)
          (count (is_exchanging id) s.threads)

  -- at the key that an operation is about, and at any other
  by_key :
      (id : Bytes) (s : System P)
      → Fits
          (lookup id s.entries)
          (count (is_pending id) s.threads)
          (count (is_exchanging id) s.threads)
      → ((j : Bytes)
          → bytes_equal id j ≡ false
          → Fits
              (lookup j s.entries)
              (count (is_pending j) s.threads)
              (count (is_exchanging j) s.threads))
      → IsExclusive s
  by_key id s own others j = elim (Bool-cases (bytes_equal id j)) [
    | inl same ↦
        subst
          (λ (k : Bytes).
            Fits (lookup k s.entries) (count (is_pending k) s.threads)
              (count (is_exchanging k) s.threads))
          ((bytes_equal_iff id j).0 same) own
    | inr other ↦ others j other
  ]

  -- the same numbers fit the same entry
  Fits-by : {o u : Option (Entry P)} {p q m n : ℕ} → o ≡ u → p ≡ m → q ≡ n → Fits u m n → Fits o p q
  Fits-by {o} {u} {p} {q} {m} {n} same_o same_p same_q f =
      subst (λ (x : Option (Entry P)). Fits x p q) (sym same_o)
        (subst (λ (x : ℕ). Fits u x q) (sym same_p) (subst (λ (x : ℕ). Fits u m x) (sym same_q) f))

  -- what fits at a key, where its entry is known
  Fits-at :
      (id : Bytes) (s : System P) (o : Option (Entry P))
      → IsExclusive s
      → lookup id s.entries ≡ o
      → Fits o (count (is_pending id) s.threads) (count (is_exchanging id) s.threads)
  Fits-at id s o h e =
      subst
        (λ (x : Option (Entry P)).
          Fits x (count (is_pending id) s.threads) (count (is_exchanging id) s.threads))
        e (h id)

  -- where a key is written and a thread may be new
  write-IsExclusive :
      (id : Bytes) (entry : Entry P) (s u : System P) (new : List (Thread P))
      → u.entries ≡ insert id entry s.entries
      → u.threads ≡ new ++ s.threads
      → ((j : Bytes)
          → bytes_equal id j ≡ false
          → (count (is_pending j) (new ++ s.threads) ≡ count (is_pending j) s.threads)
            × (count (is_exchanging j) (new ++ s.threads) ≡ count (is_exchanging j) s.threads))
      → ((j : Bytes)
          → bytes_equal id j ≡ false
          → Fits
              (lookup j s.entries)
              (count (is_pending j) s.threads)
              (count (is_exchanging j) s.threads))
      → Fits
          (some entry)
          (count (is_pending id) (new ++ s.threads))
          (count (is_exchanging id) (new ++ s.threads))
      → IsExclusive u
  write-IsExclusive id entry s u new entries threads same others own =
      by_key id u
        (Fits-by {u = some entry}
          (ap (lookup id) entries
            ∙ ground (arith, lookup-insert id id entry s.entries, bytes_equal_iff id id))
          (ap (count (is_pending id)) threads) (ap (count (is_exchanging id)) threads) own)
        (λ j other.
          let (pending, exchanging) = same j other in
          Fits-by {u = lookup j s.entries}
            (ap (lookup j) entries ∙ ground (arith, lookup-insert id j entry s.entries))
            (ap (count (is_pending j)) threads ∙ pending)
            (ap (count (is_exchanging j)) threads ∙ exchanging) (others j other))

  start-IsExclusive :
      (ctx : Option Error) (id : Bytes) (peer : P) (s : System P)
      → IsExclusive s
      → IsExclusive (start ctx id peer s)
  unfolding start
  start-IsExclusive (some e) id peer s h = h
  start-IsExclusive none id peer s h =
      let entry = entry_of peer (lookup id s.entries) in
      let launch = not entry.running && not entry.scheduled in
      let scheduled : Entry P = record entry { scheduled = launch || entry.scheduled } in
      write-IsExclusive id scheduled s (start none id peer s)
        (if launch then launched id ∷ [] else []) (ground arith) (ground arith)
        (λ j other. ground arith) (λ j other. h j)
        (elim (Option-cases (lookup id s.entries)) [
          | inl new ↦
              unfold entry_of in ground (arith, Fits-at id s none h new, bytes_equal_iff id id)
          | inr (old, e) ↦
              unfold entry_of in ground (arith, Fits-at id s (some old) h e, bytes_equal_iff id id)
        ])

  -- without a thread that was pending, or exchanging, for the key
  abbrev Owes : (pending exchanging : Bytes → ℕ) → System P → Type 0
  Owes pending exchanging s =
      (j : Bytes)
      → Fits (lookup j s.entries) (pending j + count (is_pending j) s.threads)
          (exchanging j + count (is_exchanging j) s.threads)

  Owes-at :
      (pending exchanging : Bytes → ℕ) (id : Bytes) (s : System P) (o : Option (Entry P))
      → Owes pending exchanging s
      → lookup id s.entries ≡ o
      → Fits o
          (pending id + count (is_pending id) s.threads)
          (exchanging id + count (is_exchanging id) s.threads)
  Owes-at pending exchanging id s o h e =
      subst
        (λ (x : Option (Entry P)).
          Fits x (pending id + count (is_pending id) s.threads)
            (exchanging id + count (is_exchanging id) s.threads))
        e (h id)

  Owes-other :
      (id j : Bytes) (s : System P) (p q : ℕ)
      → p ≡ 0
      → q ≡ 0
      → Fits
          (lookup j s.entries)
          (p + count (is_pending j) s.threads)
          (q + count (is_exchanging j) s.threads)
      → Fits
          (lookup j s.entries)
          (count (is_pending j) s.threads)
          (count (is_exchanging j) s.threads)
  Owes-other id j s p q none_p none_q f =
      Fits-by {u = lookup j s.entries} refl (omega (arith, none_p)) (omega (arith, none_q)) f

  begin-IsExclusive :
      (id : Bytes) (s : System P) → Owes (at_key id) nowhere s → IsExclusive (begin id s)
  unfolding begin
  begin-IsExclusive id s h = elim (Option-cases (lookup id s.entries)) [
    | inl absent ↦
        absurd
          (ground (arith, Owes-at (at_key id) nowhere id s none h absent, bytes_equal_iff id id))
    | inr (entry, e) ↦
        write-IsExclusive id (record entry { scheduled = false; running = true }) s (begin id s)
          (sending id entry.peer entry.cursor ∷ []) (ground arith) (ground arith)
          (λ j other. ground arith)
          (λ j other. Owes-other id j s (at_key id j) 0 (ground arith) refl (h j))
          (ground (arith, Owes-at (at_key id) nowhere id s (some entry) h e, bytes_equal_iff id id))
  ]

  -- the thread that owes ends, and its entry is gone
  forget_id-IsExclusive :
      (pending exchanging : Bytes → ℕ) (id : Bytes) (s : System P)
      → pending id + exchanging id ≡ 1
      → ((j : Bytes) → bytes_equal id j ≡ false → (pending j ≡ 0) × (exchanging j ≡ 0))
      → Owes pending exchanging s
      → IsExclusive (forget_id id s)
  unfolding forget_id
  forget_id-IsExclusive pending exchanging id s one others h =
      elim (Option-cases (lookup id s.entries)) [
        | inl absent ↦ absurd (ground (arith, Owes-at pending exchanging id s none h absent))
        | inr (entry, e) ↦
            by_key id (forget_id id s)
              (Fits-by {u = none}
                (ground (arith, lookup-delete id id s.entries, bytes_equal_iff id id))
                (ground (arith, Owes-at pending exchanging id s (some entry) h e))
                (ground (arith, Owes-at pending exchanging id s (some entry) h e)) (refl, refl))
              (λ j other.
                let (p, q) = others j other in
                Fits-by {u = lookup j s.entries} (ground (arith, lookup-delete id j s.entries))
                  (ground (arith, p)) (ground (arith, q))
                  (Owes-other id j s (pending j) (exchanging j) p q (h j)))
      ]

  end_limited-IsExclusive :
      (next id : Bytes) (s : System P)
      → Owes nowhere (at_key id) s
      → IsExclusive (end_limited next id s)
  unfolding end_limited
  end_limited-IsExclusive next id s h = elim (Option-cases (lookup id s.entries)) [
    | inl absent ↦
        absurd
          (ground (arith, Owes-at nowhere (at_key id) id s none h absent, bytes_equal_iff id id))
    | inr (entry, e) ↦
        write-IsExclusive id (record entry { running = false; cursor = next; scheduled = true }) s
          (end_limited next id s) (waiting id ∷ []) (ground arith) (ground arith)
          (λ j other. ground arith)
          (λ j other. Owes-other id j s 0 (at_key id j) refl (ground arith) (h j))
          (ground (arith, Owes-at nowhere (at_key id) id s (some entry) h e, bytes_equal_iff id id))
  ]

  exchange-IsExclusive :
      (id : Bytes) (s : System P) → Owes nowhere (at_key id) s → IsExclusive (forget_id id s)
  exchange-IsExclusive id s h =
      forget_id-IsExclusive nowhere (at_key id) id s (ground (arith, bytes_equal_iff id id))
        (λ j other. (refl, ground arith)) h

  end_run-IsExclusive :
      (answer : Fallible (Bytes × Bool)) (id : Bytes) (peer : P) (s : System P)
      → Owes nowhere (at_key id) s
      → IsExclusive (end_run answer id peer s)
  unfolding end_run end_failed
  end_run-IsExclusive (err e) id peer s h = elim (Bool-cases (is_failure e)) [
    | inl bad ↦ rw bad (exchange-IsExclusive id _ h)
    | inr ended ↦ rw ended (exchange-IsExclusive id _ h)
  ]
  end_run-IsExclusive (ok (next, true)) id peer s h = exchange-IsExclusive id _ h
  end_run-IsExclusive (ok (next, false)) id peer s h = end_limited-IsExclusive next id s h

  -- what is owed where a thread is taken out
  taken :
      (s : System P) (front : List (Thread P)) (t : Thread P) (back : List (Thread P))
      → IsExclusive s
      → s.threads ≡ front ++ t ∷ back
      → Owes
          (λ j. one_if (is_pending j t))
          (λ j. one_if (is_exchanging j t))
          (record s { threads = front ++ back })
  taken s front t back h e j =
      Fits-by {u = lookup j s.entries} refl
        (sym (ap (count (is_pending j)) e ∙ count-middle (is_pending j) front t back))
        (sym (ap (count (is_exchanging j)) e ∙ count-middle (is_exchanging j) front t back)) (h j)

  Step-IsExclusive : {s u : System P} → Step s u → IsExclusive s → IsExclusive u
  Step-IsExclusive {s} (starts ctx id peer e) h =
      subst IsExclusive (sym e) (start-IsExclusive ctx id peer s h)
  Step-IsExclusive {s} (runs front back id at e) h = subst IsExclusive (sym e) (
      begin-IsExclusive id (record s { threads = front ++ back })
        (taken s front (launched id) back h at))
  Step-IsExclusive {s} (wakes front back id at e) h = subst IsExclusive (sym e) (
      begin-IsExclusive id (record s { threads = front ++ back })
        (taken s front (waiting id) back h at))
  Step-IsExclusive {s} (stops front back id at e) h = subst IsExclusive (sym e) (
      forget_id-IsExclusive (at_key id) nowhere id (record s { threads = front ++ back })
        (ground (arith, bytes_equal_iff id id)) (λ j other. (ground arith, refl))
        (taken s front (waiting id) back h at))
  Step-IsExclusive {s} (ends front back id peer cursor answer at e) h = subst IsExclusive (sym e) (
      end_run-IsExclusive answer id peer (record s { threads = front ++ back })
        (taken s front (sending id peer cursor) back h at))

  -- After any number of steps in which no peer is forgotten, whatever the exchanges answer: a peer
  -- with an entry has exactly one thread, which waits for its turn where the entry is scheduled and
  -- is within the peer's only exchange where it is running; a peer without an entry has none.
  pub Reach-IsExclusive : (s : System P) → Reach Step new_scheduler s → IsExclusive s
  Reach-IsExclusive s here = λ id. unfold lookup in (refl, refl)
  Reach-IsExclusive s (step {t} r st) = Step-IsExclusive st (Reach-IsExclusive t r)
