-- ===== src/P2p/Handshake/Known.antt =====
-- What normalizing capabilities gives: the known ones among them, in order.
use stream_hive.Common.{
  ℕ, ◌+◌, ◌≤◌, ◌≡◌, refl, sym, ap, ap₂, ◌∙◌, subst, ◌⊎◌, inl, inr, Bool, true, false, ◌&&◌, not,
  List, [], ◌∷◌, ok, arith, length, if◌then◌else◌, Bool-cases, Result-cases,
}
use stream_hive.Common.Bytes.{Bytes, bytes_equal, bytes_equal_iff, bytes_less}
use stream_hive.Common.Sorting.{sort, place}
use stream_hive.Lifecycle.Transport.{lifecycle_capability, reconcile_capability}
use stream_hive.P2p.Handshake.{
  is_among, is_known, has_unprintable, check_capability, capability_loop, normalize_capabilities,
}

-- a list of known capabilities, each once
abbrev pub AreKnown : List Bytes → Type 0
AreKnown cs =
    (cs ≡ [])
    ⊎ (cs ≡ lifecycle_capability ∷ [])
    ⊎ (cs ≡ reconcile_capability ∷ [])
    ⊎ (cs ≡ lifecycle_capability ∷ reconcile_capability ∷ [])
    ⊎ (cs ≡ reconcile_capability ∷ lifecycle_capability ∷ [])

known-cases :
    (c : Bytes) → is_known c ≡ true → (c ≡ lifecycle_capability) ⊎ (c ≡ reconcile_capability)
unfolding is_known
known-cases c h = elim (Bool-cases (bytes_equal c lifecycle_capability)) [
  | inl same ↦ inl ((bytes_equal_iff c lifecycle_capability).0 same)
  | inr other ↦ inr ((bytes_equal_iff c reconcile_capability).0 (ground arith))
]

-- one round of the loop that succeeded
loop_next :
    (reject : Bool) (seen : List Bytes) (total : ℕ) (x : Bytes) (xs out : List Bytes)
    → capability_loop reject seen total (x ∷ xs) ≡ ok out
    → (rest : List Bytes) × (capability_loop reject (x ∷ seen) (total + length x) xs ≡ ok rest)
      × (out ≡ (if is_known x then x ∷ rest else rest))
      × (is_among x seen ≡ false)
      × ((reject && not (is_known x)) ≡ false)
unfolding capability_loop check_capability
loop_next reject seen total x xs out h =
    elim (Result-cases (check_capability reject seen total x)) [
      | inr (e, bad) ↦ absurd (ground arith)
      | inl (_, good) ↦
          elim (Result-cases (capability_loop reject (x ∷ seen) (total + length x) xs)) [
            | inr (e, bad) ↦ absurd (ground arith)
            | inl (rest, more) ↦ (rest, more, ground arith, ground arith, ground arith)
          ]
    ]

-- the loop gives the known capabilities among those that it is given
capability_loop-among :
    (reject : Bool) (seen : List Bytes) (total : ℕ) (cs out : List Bytes) (c : Bytes)
    → capability_loop reject seen total cs ≡ ok out
    → is_among c out ≡ (is_known c && is_among c cs)
unfolding is_among
capability_loop-among reject seen total [] out c h = unfold capability_loop in ground arith
capability_loop-among reject seen total (x ∷ xs) out c h =
    let (rest, more, shape, _, _) = loop_next reject seen total x xs out h in
    rw shape (
      ground (
        arith,
        capability_loop-among reject (x ∷ seen) (total + length x) xs rest c more,
        bytes_equal_iff c x,
      ))

-- nothing that was seen before comes again
capability_loop-fresh :
    (reject : Bool) (seen : List Bytes) (total : ℕ) (cs out : List Bytes) (c : Bytes)
    → capability_loop reject seen total cs ≡ ok out
    → is_among c seen ≡ true
    → is_among c out ≡ false
unfolding is_among
capability_loop-fresh reject seen total [] out c h s = unfold capability_loop in ground arith
capability_loop-fresh reject seen total (x ∷ xs) out c h s =
    let (rest, more, shape, fresh, _) = loop_next reject seen total x xs out h in
    rw shape (
      ground (
        arith,
        capability_loop-fresh reject (x ∷ seen) (total + length x) xs rest c more,
        bytes_equal_iff c x,
      ))

-- where unknown capabilities are rejected, none is among those that the loop was given
capability_loop-is_known :
    (reject : Bool) (seen : List Bytes) (total : ℕ) (cs out : List Bytes) (c : Bytes)
    → capability_loop reject seen total cs ≡ ok out
    → (reject && (is_among c cs && not (is_known c))) ≡ false
unfolding is_among
capability_loop-is_known reject seen total [] out c h = ground arith
capability_loop-is_known reject seen total (x ∷ xs) out c h =
    let (rest, more, _, _, allowed) = loop_next reject seen total x xs out h in
    elim (Bool-cases (bytes_equal c x)) [
      | inl same ↦
          let e : c ≡ x = (bytes_equal_iff c x).0 same in
          rw (ap is_known e) (ground (arith, allowed))
      | inr other ↦
          ground
            (arith, capability_loop-is_known reject (x ∷ seen) (total + length x) xs rest c more)
    ]

among_first : (x : Bytes) (xs : List Bytes) → is_among x (x ∷ xs) ≡ true
unfolding is_among
among_first x xs = ground (arith, bytes_equal_iff x x)

AreKnown-cons :
    (x : Bytes) (rest : List Bytes)
    → is_among x rest ≡ false
    → AreKnown rest
    → (x ≡ lifecycle_capability) ⊎ (x ≡ reconcile_capability)
    → AreKnown (x ∷ rest)
unfolding is_among bytes_equal
AreKnown-cons x rest f (inl e) (inl l) =
    inr (inl (ap₂ (λ (y : Bytes) (ys : List Bytes). y ∷ ys) l e))
AreKnown-cons x rest f (inl e) (inr r) =
    inr (inr (inl (ap₂ (λ (y : Bytes) (ys : List Bytes). y ∷ ys) r e)))
AreKnown-cons x rest f (inr (inl e)) (inl l) = absurd (ground arith)
AreKnown-cons x rest f (inr (inl e)) (inr r) =
    inr (inr (inr (inr (ap₂ (λ (y : Bytes) (ys : List Bytes). y ∷ ys) r e))))
AreKnown-cons x rest f (inr (inr (inl e))) (inl l) =
    inr (inr (inr (inl (ap₂ (λ (y : Bytes) (ys : List Bytes). y ∷ ys) l e))))
AreKnown-cons x rest f (inr (inr (inl e))) (inr r) = absurd (ground arith)
AreKnown-cons x rest f (inr (inr (inr (inl e)))) (inl l) = absurd (ground arith)
AreKnown-cons x rest f (inr (inr (inr (inl e)))) (inr r) = absurd (ground arith)
AreKnown-cons x rest f (inr (inr (inr (inr e)))) (inl l) = absurd (ground arith)
AreKnown-cons x rest f (inr (inr (inr (inr e)))) (inr r) = absurd (ground arith)

capability_loop-AreKnown :
    (reject : Bool) (seen : List Bytes) (total : ℕ) (cs out : List Bytes)
    → capability_loop reject seen total cs ≡ ok out
    → AreKnown out
capability_loop-AreKnown reject seen total [] out h = inl (unfold capability_loop in ground arith)
capability_loop-AreKnown reject seen total (x ∷ xs) out h =
    let (rest, more, shape, _, _) = loop_next reject seen total x xs out h in
    let known = capability_loop-AreKnown reject (x ∷ seen) (total + length x) xs rest more in
    let fresh =
      capability_loop-fresh reject (x ∷ seen) (total + length x) xs rest x more
        (among_first x seen) in
    elim (Bool-cases (is_known x)) [
      | inl yes_known ↦
          let e : out ≡ x ∷ rest = ground arith in
          subst AreKnown (sym e) (AreKnown-cons x rest fresh known (known-cases x yes_known))
      | inr other ↦ let e : out ≡ rest = ground arith in subst AreKnown (sym e) known
    ]

-- the three lists that normalizing can give, other than the empty one
abbrev pub Normal : List Bytes → Type 0
Normal cs =
    (cs ≡ [])
    ⊎ (cs ≡ lifecycle_capability ∷ [])
    ⊎ (cs ≡ reconcile_capability ∷ [])
    ⊎ (cs ≡ reconcile_capability ∷ lifecycle_capability ∷ [])

-- sorting keeps what is among the capabilities
sort-Normal :
    (cs : List Bytes)
    → AreKnown cs
    → Normal (sort bytes_less cs) × ((c : Bytes) → is_among c (sort bytes_less cs) ≡ is_among c cs)
unfolding sort bytes_less place
sort-Normal cs (inl e) = rw e (inl refl, λ c. refl)
sort-Normal cs (inr (inl e)) = rw e (inr (inl refl), λ c. refl)
sort-Normal cs (inr (inr (inl e))) = rw e (inr (inr (inl refl)), λ c. refl)
sort-Normal cs (inr (inr (inr (inl e)))) =
    rw e (inr (inr (inr refl)), λ c. unfold is_among in ground arith)
sort-Normal cs (inr (inr (inr (inr e)))) = rw e (inr (inr (inr refl)), λ c. refl)

normalize_again : (cs : List Bytes) → Normal cs → normalize_capabilities cs false ≡ ok cs
unfolding normalize_capabilities capability_loop check_capability is_known is_among bytes_equal
    has_unprintable sort place bytes_less
normalize_again cs (inl e) = rw e refl
normalize_again cs (inr (inl e)) = rw e refl
normalize_again cs (inr (inr (inl e))) = rw e refl
normalize_again cs (inr (inr (inr e))) = rw e refl

-- Normalizing gives, of at most 16 capabilities, those that this program knows, each once and in
-- order; where unknown ones are rejected, none was given. Normalizing the result again changes
-- nothing.
pub normalize_capabilities_sound :
    (cs out : List Bytes) (reject : Bool)
    → normalize_capabilities cs reject ≡ ok out
    → Normal out
      × ((c : Bytes) → is_among c out ≡ (is_known c && is_among c cs))
      × ((c : Bytes) → (reject && (is_among c cs && not (is_known c))) ≡ false)
      × (length cs ≤ 16)
      × (normalize_capabilities out false ≡ ok out)
unfolding normalize_capabilities
normalize_capabilities_sound cs out reject h =
    elim (Result-cases (capability_loop reject [] 0 cs)) [
      | inr (e, bad) ↦ absurd (ground arith)
      | inl (found, good) ↦
          let shape : out ≡ sort bytes_less found = ground arith in
          let (normal, kept) =
            sort-Normal found (capability_loop-AreKnown reject [] 0 cs found good) in
          (
            subst Normal (sym shape) normal,
            λ c. ap (is_among c) shape ∙ kept c ∙ capability_loop-among reject [] 0 cs found c good,
            λ c. capability_loop-is_known reject [] 0 cs found c good,
            ground arith,
            normalize_again out (subst Normal (sym shape) normal),
          )
    ]
