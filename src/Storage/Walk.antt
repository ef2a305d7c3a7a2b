-- ===== src/Storage/Walk.antt =====
-- storage/inventory.go and storage/integrity.go: the loop over the pages of a pager that both have,
-- with its checks of the cursor contract. They differ in what they do with the keys of a page and
-- in the errors that they wrap.
pub mod Cursors
pub mod Enumeration
use stream_hive.Common.{
  ℕ, zero, suc, ◌+◌, ◌<◌, ◌≤◌, ◌≡◌, refl, sym, ap, ◌∙◌, ◌⊎◌, inl, inr, Bool, true, false, ◌||◌,
  ◌&&◌, not, Option, none, some, List, [], ◌∷◌, ◌++◌, Result, ok, err, check, fail_if, ◌>>=◌, ◌>>◌,
  arith, All, length, take, drop, ltb, ◌==◌, if◌then◌else◌, Bool-cases, Result-cases, append_assoc,
  append-nil, subst, length-append, All-append_right, length-take, length-drop, take-append-drop,
}
use stream_hive.Common.Bytes.{
  Bytes, bytes_equal, bytes_equal_iff, bytes_less, bytes_less_irrefl, bytes_less_asym,
}
use stream_hive.Context.{Ctx, later, background}
use stream_hive.Errors
use stream_hive.Errors.{Error, Fallible}
use stream_hive.Storage.Keys.{
  Ascending, Ascending-rest, Ascending-above, AllAbove, is_after, keys_after,
}
use stream_hive.Storage.Memory.{last_key}

-- `ListKeyPage(ctx, cursor, DefaultKeyPageSize)`: the answer to the k-th call
abbrev pub Pager : Type 0
Pager = ℕ → Bytes → Fallible (List Bytes × Bytes)

-- the errors of the contract, where the source tells them apart
pub record WalkErrors : Type 0 where
  pub cursor : Error
  pub mismatch : Error
  pub advance : Error
  pub order : Error

-- the answers of the context in the k-th round: at its start, and to the checks of the keys
pub record WalkIo : Type 0 where
  pub entry : ℕ → Option Error
  pub keys : ℕ → Ctx

abbrev pub walk_fine : WalkIo
walk_fine = record { entry = λ k. none; keys = λ k. background }

-- `bytes.Compare(key, other) <= 0` for a key that there is
unfoldable pub stays : Bytes → Option Bytes → Bool
stays key none = false
stays key (some other) = not (bytes_less other key)

-- the loop that checks the keys of a page, with the key before
unfoldable pub check_keys :
    WalkErrors → Ctx → Option Bytes → Option Bytes → List Bytes → Fallible Unit
unfolding stays
check_keys errors ctx cursor previous [] = ok tt
check_keys errors ctx cursor previous (k ∷ ks) = do
  check (ctx 0)
  fail_if (length k == 0) Error.inventory_key_empty
  fail_if (stays k cursor) errors.advance
  fail_if (stays k previous) errors.order
  check_keys errors (later 1 ctx) cursor (some k) ks

abbrev pub cursor_bytes : Option Bytes → Bytes
cursor_bytes none = []
cursor_bytes (some c) = c

-- what a round checks of a page
unfoldable pub check_page :
    WalkErrors → Ctx → Option Bytes → List Bytes × Bytes → Fallible (List Bytes × Bytes)
unfolding check_keys last_key
check_page errors ctx cursor (keys, next) =
    if length keys == 0
    then (do fail_if (ltb 0 (length next)) errors.cursor; ok (keys, next))
    else (do
      fail_if
          (ltb 256 (length keys) || (length next == 0 || not (bytes_equal next (last_key keys))))
          errors.mismatch
      check_keys errors ctx cursor none keys
      ok (keys, next))

unfoldable pub round_checks :
    WalkErrors → WalkIo → Pager → ℕ → Option Bytes → Fallible (List Bytes × Bytes)
unfolding check_page
round_checks errors io pager k cursor = do
  check (io.entry k)
  page ← pager k (cursor_bytes cursor)
  check_page errors (io.keys k) cursor page

-- `visit k` is what the k-th round does with the keys of its page
module _ {St : Type 0} (visit : ℕ → List Bytes → St → Fallible Unit × St) where
  -- at most `n` rounds, from the k-th on; `none` where they do not suffice
  unfoldable pub walk :
      ℕ → WalkErrors → WalkIo → Pager → ℕ → Option Bytes → St → Option (Fallible Unit × St)
  unfolding round_checks
  walk zero errors io pager k cursor st = none
  walk (suc n) errors io pager k cursor st = elim (round_checks errors io pager k cursor) [
    | err e ↦ some (err e, st)
    | ok page ↦
        let visited = visit k page.0 st in
        let rest = walk n errors io pager (suc k) (some page.1) visited.1 in
        if length page.0 == 0
        then some (ok tt, st)
        else elim visited.0 [ err e ↦ some (err e, visited.1) | ok _ ↦ rest ]
  ]
