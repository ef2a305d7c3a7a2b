-- ===== src/Std/Json.antt =====
-- encoding/json for one Go type, as its callers see it: the bytes of a value, and the value of some
-- bytes or an error. The law is the round trip on values that satisfy `P`.
use stream_hive.Common.{◌≡◌, Option, none, some, ok, err}
use stream_hive.Common.Bytes.{Bytes}
use stream_hive.Errors.{Error, Fallible}

-- why a strict decoder refuses some bytes: their first value, a second value behind it, or a rest
-- behind it that is no value
pub data JsonFailure : Type 0 where
  first_value second_value bad_rest : JsonFailure

pub record Json (A : Type 0) : Type 0 where
  -- `json.Marshal(a)`, which does not fail on the types that the program gives it
  pub marshal : A → Bytes
  -- `json.Unmarshal(data, &a)`, or a decoder that is strict about fields and trailing data
  pub unmarshal : Bytes → Option A
  -- what is wrong with bytes that a strict decoder refuses
  pub failure : Bytes → JsonFailure

-- a strict decoder of package lifecycle: the first value fails with `corrupt` and the decoder's
-- error, a second value with `again`
abbrev pub strictly : {A : Type 0} ⦃json : Json A⦄ → Error → Error → Bytes → Fallible A
strictly ⦃json⦄ corrupt again payload = elim (json.unmarshal payload) [
  | some a ↦ ok a
  | none ↦ err (refusal (json.failure payload))
]
  where
    refusal : JsonFailure → Error
    refusal first_value = Error.join corrupt Error.json
    refusal second_value = again
    refusal bad_rest = Error.join corrupt Error.json

-- what was marshalled is read back
abbrev pub ReadsBack : {A : Type 0} → Json A → (A → Type 0) → Type 0
ReadsBack {A} j P = (a : A) → P a → j.unmarshal (j.marshal a) ≡ some a
