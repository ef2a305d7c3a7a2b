-- ===== src/Daemon/Inventory/Progress.antt =====
-- inventory.go: what one call of `sendBlobHasKeysBudget` announces.
use stream_hive.Common.{
  ℕ, zero, suc, ◌+◌, ◌/◌, ◌≤◌, ◌<◌, ◌≡◌, refl, sym, ap, ◌∙◌, ◌⊎◌, inl, inr, Bool, true, false,
  Option, none, some, List, [], ◌∷◌, ◌++◌, ok, err, arith, length, take, drop, ltb, ◌==◌, check,
  ◌>>◌, ◌&&◌, Bool-cases, Result-cases, Option-cases, append_assoc, append-nil, subst, length-drop,
}
use stream_hive.Common.Bytes.{Bytes}
use stream_hive.Std.Json.{Json}
use stream_hive.Context.{Ctx, later}
use stream_hive.Errors.{Error, Fallible}
use stream_hive.Storage.Memory.{last_key}
use stream_hive.P2p.Frame.{frame_max}
use stream_hive.Replication.Protocol.{Limits, Message, encode_blob_has}
use stream_hive.Daemon.Inventory.{
  Budget, Sent, FrameIo, inventory_batch_size, keys_used, within_keys, first_count, next_frame,
  send_loop, send_blob_has_keys_budget,
}

module _ ⦃messages : Json Message⦄ where
  -- the frames announce the keys in their order, a batch each, and none is longer than `max`
  abbrev pub Announces : Limits → ℕ → List Bytes → List Bytes → Type 0
  Announces l max [] ks = ks ≡ []
  Announces l max (f ∷ fs) ks =
      (batch : List Bytes) × (rest : List Bytes) × (ks ≡ batch ++ rest)
      × (encode_blob_has batch l ≡ ok f)
      × (length f ≤ max)
      × Announces l max fs rest

  -- an error, no frame, or one that announces some of the first `count` keys
  abbrev Answers :
      Limits → ℕ → Budget → Sent → List Bytes → ℕ → Option (Fallible (Option (ℕ × Bytes))) → Type 0
  Answers l max b p keys count out =
      ((e : Error) × (out ≡ some (err e)))
      ⊎ ((out ≡ some (ok none))
          ⊎ ((m : ℕ) × (payload : Bytes) × (out ≡ some (ok (some (m, payload))))
              × (0 < m)
              × (m ≤ count)
              × (encode_blob_has (take m keys) l ≡ ok payload)
              × (length payload ≤ max)
              × ((b.max_bytes ≡ 0) ⊎ ((p.bytes + length payload ≤ b.max_bytes) ⊎ (p.keys ≡ 0)))))

  next_frame-Answers_less :
      (l : Limits) (max : ℕ) (b : Budget) (p : Sent) (keys : List Bytes) (less count : ℕ)
      (out : Option (Fallible (Option (ℕ × Bytes))))
      → less ≤ count
      → Answers l max b p keys less out
      → Answers l max b p keys count out
  next_frame-Answers_less l max b p keys less count out h (inl failed) = inl failed
  next_frame-Answers_less l max b p keys less count out h (inr (inl stop)) = inr (inl stop)
  next_frame-Answers_less l max b p keys less count out h
        (inr (inr (m, payload, e, pos, most, made, fits, paid))) =
      inr (inr (m, payload, e, pos, omega arith, made, fits, paid))

  -- a round answers, or goes on with half of more than one key
  next_frame_round :
      (n : ℕ) (ctx : Ctx) (l : Limits) (max : ℕ) (b : Budget) (p : Sent) (keys : List Bytes)
      (count : ℕ)
      → 0 < count
      → Answers l max b p keys count (next_frame (suc n) ctx l max b p keys count)
        ⊎ ((1 < count)
            × (next_frame (suc n) ctx l max b p keys count
                ≡ next_frame n (later 1 ctx) l max b p keys (count / 2)))
  unfolding next_frame
  next_frame_round n ctx l max b p keys count least =
      elim (Result-cases (do check (ctx 0); encode_blob_has (take count keys) l)) [
        | inr (e, bad) ↦ inl (inl (e, ground arith))
        | inl (payload, good) ↦
            let made : encode_blob_has (take count keys) l ≡ ok payload = ground arith in
            elim (Bool-cases (ltb max (length payload))) [
              | inl over ↦ elim (Bool-cases (count == 1)) [
                | inl one ↦ inl (inl (Error.frame_too_large, ground arith))
                | inr more ↦ inr (ground arith, ground arith)
              ]
              | inr fits ↦
                  elim (Bool-cases
                    (ltb 0 b.max_bytes && ltb b.max_bytes (p.bytes + length payload))) [
                      | inr free ↦ inl (
                          inr (
                            inr (
                              count,
                              payload,
                              ground arith,
                              least,
                              omega arith,
                              made,
                              ground arith,
                              elim (Bool-cases (b.max_bytes == 0)) [
                                | inl endless ↦ inl (ground arith)
                                | inr some_bytes ↦ inr (inl (ground arith))
                              ],
                            )))
                      | inl tight ↦ elim (Bool-cases (ltb 1 count)) [
                        | inl more ↦ inr (ground arith, ground arith)
                        | inr one ↦ elim (Bool-cases (ltb 0 p.keys)) [
                          | inl some_sent ↦ inl (inr (inl (ground arith)))
                          | inr nothing ↦ inl (
                              inr (
                                inr (
                                  count,
                                  payload,
                                  ground arith,
                                  least,
                                  omega arith,
                                  made,
                                  ground arith,
                                  inr (inr (ground arith)),
                                )))
                        ]
                      ]
                    ]
            ]
      ]

  -- what `next_frame` answers: as many rounds as keys suffice
  next_frame-Answers :
      (n : ℕ) (ctx : Ctx) (l : Limits) (max : ℕ) (b : Budget) (p : Sent) (keys : List Bytes)
      (count : ℕ)
      → count ≤ n
      → 0 < count
      → Answers l max b p keys count (next_frame n ctx l max b p keys count)
  next_frame-Answers zero ctx l max b p keys count most least = absurd (omega arith)
  next_frame-Answers (suc n) ctx l max b p keys count most least =
      elim (next_frame_round n ctx l max b p keys count least) [
        | inl done ↦ done
        | inr (more, same) ↦
            subst (λ (x : Option (Fallible (Option (ℕ × Bytes)))). Answers l max b p keys count x)
              (sym same)
              (next_frame-Answers_less l max b p keys (count / 2) count _ (omega arith) (
                next_frame-Answers n (later 1 ctx) l max b p keys (count / 2) (omega arith)
                  (omega arith)))
      ]

  -- the first try takes a key at least, no more than there are, and no more than the budget leaves
  first_count-bounds :
      (l : Limits) (b : Budget) (sent : ℕ) (k : Bytes) (ks : List Bytes)
      → keys_used b sent ≡ false
      → (0 < first_count l b sent (k ∷ ks))
        × (first_count l b sent (k ∷ ks) ≤ length (k ∷ ks))
        × ((b.max_keys ≡ 0) ⊎ (sent + first_count l b sent (k ∷ ks) ≤ b.max_keys))
  unfolding first_count within_keys inventory_batch_size keys_used
  first_count-bounds l b sent k ks h = elim (Bool-cases (b.max_keys == 0)) [
    | inl free ↦ (ground arith, ground arith, inl (ground arith))
    | inr some_keys ↦ (ground arith, ground arith, inr (ground arith))
  ]

  abbrev pub total_bytes : List Bytes → ℕ
  total_bytes [] = 0
  total_bytes (f ∷ fs) = length f + total_bytes fs

  -- the bytes are within the budget, or no frame was sent, or the first of the exchange alone
  abbrev pub IsPaid : Budget → Sent → Sent → List Bytes → Type 0
  IsPaid b p after frames =
      ((b.max_bytes ≡ 0) ⊎ (after.bytes ≤ b.max_bytes))
      ⊎ ((frames ≡ []) ⊎ ((p.keys ≡ 0) × (length frames ≡ 1)))

  -- What a call that starts from `p` leaves: an answer; the frames that it sent, each within `max`,
  -- announce the first `count` keys in their order; keys and bytes are counted and within the
  -- budget; and a complete call announced all.
  pub record IsProgress (l : Limits) (max : ℕ) (b : Budget) (keys : List Bytes) (p : Sent)
      (out : Option (Fallible (Bytes × Bool) × Sent)) : Type 0 where
    pub answer : Fallible (Bytes × Bool)
    pub after : Sent
    pub count : ℕ
    pub frames : List Bytes
    pub returns : out ≡ some (answer, after)
    pub count_fits : count ≤ length keys
    pub grown : after.frames ≡ p.frames ++ frames
    pub announced : Announces l max frames (take count keys)
    pub counted : after.keys ≡ p.keys + count
    pub sized : after.bytes ≡ p.bytes + total_bytes frames
    pub paid : IsPaid b p after frames
    pub in_budget : (b.max_keys ≡ 0) ⊎ (after.keys ≤ b.max_keys)
    pub all_told : (cursor : Bytes) → answer ≡ ok (cursor, true) → count ≡ length keys

  -- a call that sends nothing more
  stopped-IsProgress :
      (l : Limits) (max : ℕ) (b : Budget) (keys : List Bytes) (p : Sent)
      (answer : Fallible (Bytes × Bool)) (out : Option (Fallible (Bytes × Bool) × Sent))
      → (b.max_keys ≡ 0) ⊎ (p.keys ≤ b.max_keys)
      → out ≡ some (answer, p)
      → ((cursor : Bytes) → answer ≡ ok (cursor, true) → 0 ≡ length keys)
      → IsProgress l max b keys p out
  stopped-IsProgress l max b keys p answer out budget e all = record {
    answer = answer;
    after = p;
    count = 0;
    frames = [];
    returns = e;
    count_fits = omega arith;
    grown = sym (append-nil p.frames);
    announced = refl;
    counted = omega arith;
    sized = omega arith;
    paid = inr (inl refl);
    in_budget = budget;
    all_told = all;
  }

  -- a front of a front, and what follows it
  take-batch :
      (m n : ℕ) (ks : List Bytes)
      → m ≤ length ks
      → take (m + n) ks ≡ take m ks ++ take n (drop m ks)
  take-batch zero n ks h = ap (λ (x : ℕ). take x ks) (omega arith)
  take-batch (suc m) n [] h = absurd (omega arith)
  take-batch (suc m) n (k ∷ ks) h =
      ap (λ (x : ℕ). take x (k ∷ ks)) next
      ∙ ap (λ (xs : List Bytes). k ∷ xs) (take-batch m n ks (omega arith))
    where
      next : suc m + n ≡ suc (m + n)
      next = omega arith

  -- the state behind a frame
  abbrev with_frame : Sent → ℕ → Bytes → Sent
  with_frame p m payload = record {
    keys = p.keys + m;
    bytes = p.bytes + length payload;
    frames = p.frames ++ payload ∷ [];
  }

  frame-IsPaid :
      (b : Budget) (p : Sent) (m : ℕ) (payload : Bytes) (after : Sent) (frames : List Bytes)
      → 0 < m
      → (b.max_bytes ≡ 0) ⊎ ((p.bytes + length payload ≤ b.max_bytes) ⊎ (p.keys ≡ 0))
      → after.bytes ≡ p.bytes + length payload + total_bytes frames
      → IsPaid b (with_frame p m payload) after frames
      → IsPaid b p after (payload ∷ frames)
  frame-IsPaid b p m payload after frames pos (inl endless) sized paid = inl (inl endless)
  frame-IsPaid b p m payload after frames pos (inr one) sized (inl within) = inl within
  frame-IsPaid b p m payload after frames pos (inr one) sized (inr (inr (none_sent, _))) =
      absurd (omega arith)
  frame-IsPaid b p m payload after frames pos (inr (inl fits)) sized (inr (inl nothing)) =
      inl (inr (ground (arith, ap total_bytes nothing)))
  frame-IsPaid b p m payload after frames pos (inr (inr start)) sized (inr (inl nothing)) =
      inr (inr (start, ground (arith, ap length nothing)))

  -- a frame in front of what a call leaves
  more-IsProgress :
      (l : Limits) (max : ℕ) (b : Budget) (keys : List Bytes) (p : Sent) (m : ℕ) (payload : Bytes)
      (out rest : Option (Fallible (Bytes × Bool) × Sent))
      → m ≤ length keys
      → encode_blob_has (take m keys) l ≡ ok payload
      → length payload ≤ max
      → 0 < m
      → (b.max_bytes ≡ 0) ⊎ ((p.bytes + length payload ≤ b.max_bytes) ⊎ (p.keys ≡ 0))
      → out ≡ rest
      → IsProgress l max b (drop m keys) (with_frame p m payload) rest
      → IsProgress l max b keys p out
  more-IsProgress l max b keys p m payload out rest fits made small pos paid same i = record {
    answer = i.answer;
    after = i.after;
    count = m + i.count;
    frames = payload ∷ i.frames;
    returns = same ∙ i.returns;
    count_fits = ground (arith, i.count_fits, length-drop m keys);
    grown = i.grown ∙ append_assoc p.frames (payload ∷ []) i.frames;
    announced = (
      take m keys,
      take i.count (drop m keys),
      take-batch m i.count keys fits,
      made,
      small,
      i.announced,
    );
    counted = ground (arith, i.counted);
    sized = ground (arith, i.sized);
    paid = frame-IsPaid b p m payload i.after i.frames pos paid i.sized i.paid;
    in_budget = i.in_budget;
    all_told = λ cursor h. ground (arith, i.all_told cursor h, length-drop m keys);
  }

  send_loop-IsProgress :
      (n : ℕ) (io : ℕ → FrameIo) (l : Limits) (max : ℕ) (b : Budget) (keys : List Bytes)
      (cursor : Bytes) (p : Sent)
      → length keys ≤ n
      → (b.max_keys ≡ 0) ⊎ (p.keys ≤ b.max_keys)
      → IsProgress l max b keys p (send_loop n io l max b keys cursor p)
  unfolding send_loop
  send_loop-IsProgress n io l max b [] cursor p fuel budget =
      stopped-IsProgress l max b [] p (ok (cursor, true)) _ budget refl (λ c h. refl)
  send_loop-IsProgress zero io l max b (k ∷ ks) cursor p fuel budget = absurd (omega arith)
  send_loop-IsProgress (suc n) io l max b (k ∷ ks) cursor p fuel budget =
      elim (Bool-cases (keys_used b p.keys)) [
        | inl used ↦
            stopped-IsProgress l max b (k ∷ ks) p (ok (cursor, false)) _ budget (ground arith)
              (λ c h. absurd (ground arith))
        | inr free ↦
            let count = first_count l b p.keys (k ∷ ks) in
            let (least, most, left) = first_count-bounds l b p.keys k ks free in
            elim (next_frame-Answers count (io 0).ctx l max b p (k ∷ ks) count (omega arith)
              least) [
                | inl (e, failed) ↦
                    stopped-IsProgress l max b (k ∷ ks) p (err e) _ budget (ground arith)
                      (λ c h. absurd (ground arith))
                | inr (inl stop) ↦
                    stopped-IsProgress l max b (k ∷ ks) p (ok (cursor, false)) _ budget
                      (ground arith) (λ c h. absurd (ground arith))
                | inr (inr (m, payload, e, pos, few, made, small, paid)) ↦
                    elim (Option-cases (io 0).write) [
                      | inr (e', bad) ↦
                          stopped-IsProgress l max b (k ∷ ks) p (err e') _ budget (ground arith)
                            (λ c h. absurd (ground arith))
                      | inl written ↦
                          more-IsProgress l max b (k ∷ ks) p m payload _ _ (omega arith) made small
                            pos paid (ground arith)
                            (send_loop-IsProgress n (λ i. io (suc i)) l max b (drop m (k ∷ ks))
                              (last_key (take m (k ∷ ks))) (with_frame p m payload)
                              (ground (arith, length-drop m (k ∷ ks))) (ground (arith, left)))
                    ]
              ]
      ]

  -- One call of `sendBlobHasKeysBudget`, whose first keys are within the budget, ends; and whatever
  -- it answers, the frames that it sent announce a front of the keys in their order, each frame is
  -- within the frame limit, the keys sent are counted and within their budget, and so are the
  -- bytes, but for the first frame of an exchange; if it reports that it is complete, every key was
  -- announced.
  pub send_blob_has_keys_budget-IsProgress :
      (io : ℕ → FrameIo) (keys : List Bytes) (l : Limits) (max_frame : ℕ) (b : Budget) (p : Sent)
      → (b.max_keys ≡ 0) ⊎ (p.keys ≤ b.max_keys)
      → IsProgress l
          (frame_max max_frame)
          b
          keys
          p
          (send_blob_has_keys_budget io keys l max_frame b p)
  unfolding send_blob_has_keys_budget
  send_blob_has_keys_budget-IsProgress io keys l max_frame b p budget =
      send_loop-IsProgress (length keys) io l (frame_max max_frame) b keys [] p (omega arith) budget
