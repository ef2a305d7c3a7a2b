-- ===== src/Storage/Walk/Enumeration.antt =====
-- Walking the pages visits the whole set as one list.
use stream_hive.Common.{
  ℕ, zero, suc, ◌<◌, ◌≡◌, refl, sym, ap, ◌∙◌, inl, inr, Option, none, some, List, [], ◌∷◌, ◌++◌, ok,
  err, arith, All, length, take, drop, Result-cases, append_assoc, subst, All-append_right,
  length-drop, take-append-drop,
}
use stream_hive.Common.Bytes.{Bytes}
use stream_hive.Errors.{Fallible}
use stream_hive.Storage.Keys.{Ascending}
use stream_hive.Storage.Memory.{last_key}
use stream_hive.Storage.Walk.{Pager, WalkErrors, walk_fine, round_checks, walk}
use stream_hive.Storage.Walk.Cursors.{
  Serves, IsKey, Stands, Stands-start, Stands-next, round_accepts, All-front, Ascending-back,
}

module _ {St : Type 0} (visit : List Bytes → St → Fallible Unit × St) where
  -- what is done with a list is done with its front and then, if that went well, with the rest
  pub record IsLoop : Type 0 where
    pub visit-nil : (st : St) → visit [] st ≡ (ok tt, st)
    pub visit-append :
        (xs ys : List Bytes) (st : St)
        → visit (xs ++ ys) st ≡ elim (visit xs st).0 [
          | err e ↦ (err e, (visit xs st).1)
          | ok _ ↦ visit ys (visit xs st).1
        ]

  walk_end :
      (n : ℕ) (errors : WalkErrors) (pager : Pager) (k : ℕ) (cursor : Option Bytes) (next : Bytes)
      (st : St)
      → round_checks errors walk_fine pager k cursor ≡ ok ([], next)
      → walk (λ k. visit) (suc n) errors walk_fine pager k cursor st ≡ some (ok tt, st)
  unfolding walk
  walk_end n errors pager k cursor next st h = ground arith

  walk_next :
      (n : ℕ) (errors : WalkErrors) (pager : Pager) (k : ℕ) (cursor : Option Bytes) (x : Bytes)
      (xs : List Bytes) (next : Bytes) (st : St)
      → round_checks errors walk_fine pager k cursor ≡ ok (x ∷ xs, next)
      → walk (λ k. visit) (suc n) errors walk_fine pager k cursor st ≡ elim (visit (x ∷ xs) st).0 [
        | err e ↦ some (err e, (visit (x ∷ xs) st).1)
        | ok _ ↦
            walk (λ k. visit) n errors walk_fine pager (suc k) (some next) (visit (x ∷ xs) st).1
      ]
  unfolding walk
  walk_next n errors pager k cursor x xs next st h = ground arith

  module _ (loop : IsLoop) (errors : WalkErrors) (pager : Pager) (ks : List Bytes)
      (serves : Serves pager ks) (keys : All IsKey ks) (ascending : Ascending ks) where
    walk_rest :
        (n k : ℕ) (cursor : Option Bytes) (pre rest : List Bytes) (st : St)
        → pre ++ rest ≡ ks
        → Stands cursor ks rest
        → length rest < n
        → walk (λ k. visit) n errors walk_fine pager k cursor st ≡ some (visit rest st)
    walk_rest zero k cursor pre rest st whole stands few = absurd (omega arith)
    walk_rest (suc n) k cursor pre [] st whole stands few =
        walk_end n errors pager k cursor (last_key []) st
          (round_accepts errors pager k cursor ks [] serves stands tt tt)
        ∙ ap some (sym (loop.visit-nil st))
    walk_rest (suc n) k cursor pre (x ∷ xs) st whole stands few =
        let page = take 255 xs in
        let left = drop 255 xs in
        let keys' : All IsKey (pre ++ x ∷ xs) = subst (All IsKey) (sym whole) keys in
        let ascending' : Ascending (pre ++ x ∷ xs) = subst Ascending (sym whole) ascending in
        let parts : (pre ++ x ∷ page) ++ left ≡ pre ++ x ∷ xs =
          append_assoc pre (x ∷ page) left
          ∙ ap (λ (t : List Bytes). pre ++ x ∷ t) (take-append-drop 255 xs) in
        let accepted =
          round_accepts errors pager k cursor ks (x ∷ xs) serves stands
            (All-append_right IsKey pre (x ∷ xs) keys') (Ascending-back pre (x ∷ xs) ascending') in
        let further : Stands (some (last_key (x ∷ page))) ks left =
          subst (λ (t : List Bytes). Stands (some (last_key (x ∷ page))) t left) (parts ∙ whole)
            (Stands-next pre x page left (subst Ascending (sym parts) ascending')
              (All-front (pre ++ x ∷ page) left IsKey (subst (All IsKey) (sym parts) keys'))) in
        let split =
          ap (λ (t : List Bytes). visit (x ∷ t) st) (sym (take-append-drop 255 xs))
          ∙ loop.visit-append (x ∷ page) left st in
        walk_next n errors pager k cursor x page (last_key (x ∷ page)) st accepted
        ∙ elim (Result-cases (visit (x ∷ page) st).0) [
          | inr (e, bad) ↦ ground (arith, split)
          | inl (_, good) ↦ ground (
            arith,
            split,
            walk_rest n (suc k) (some (last_key (x ∷ page))) (pre ++ x ∷ page) left
                (visit (x ∷ page) st).1 (parts ∙ whole) further (omega (arith, length-drop 255 xs)),
          )
        ]

    -- Page by page, the whole set is visited as one list: one round for each 256 keys, so that more
    -- rounds than keys are enough.
    pub walk-visit :
        (n : ℕ) (st : St)
        → length ks < n
        → walk (λ k. visit) n errors walk_fine pager 0 none st ≡ some (visit ks st)
    walk-visit n st few = walk_rest n 0 none [] ks st refl (Stands-start ks) few
