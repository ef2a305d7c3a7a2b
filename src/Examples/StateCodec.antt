-- ===== src/Examples/StateCodec.antt =====
-- Small codecs for the states of the state files, in the place of encoding/json.
use stream_hive.Common.{
  ℕ, zero, suc, ◌≡◌, refl, Option, none, some, List, [], ◌∷◌, length, take, drop, take-append,
  drop-append,
}
use stream_hive.Common.Bytes.{Bytes}
use stream_hive.Common.Maps.{Map}
use stream_hive.Std.Json.{Json, first_value}
use stream_hive.Lifecycle.Version.{Version}
use stream_hive.Lifecycle.Authority.{AuthorityState}
use stream_hive.Lifecycle.Watermarks.{WatermarkState}
use stream_hive.Lifecycle.Membership.{MembershipState}
use stream_hive.Examples.Codec.{put_text}

abbrev get_authority : List ℕ → Option AuthorityState
get_authority (epoch ∷ sequence ∷ id) =
    some (record { authority_id = id; version = record { epoch = epoch; sequence = sequence } })
get_authority _ = none

instance abbrev pub authority_codec : Json AuthorityState
authority_codec = record {
  marshal = λ s. s.version.epoch ∷ s.version.sequence ∷ s.authority_id;
  unmarshal = get_authority;
  failure = λ bs. first_value;
}

abbrev put_members : List Bytes → List ℕ
put_members [] = []
put_members (m ∷ ms) = put_text m (put_members ms)

-- as many members as the first number says
abbrev get_members : ℕ → List ℕ → List Bytes
get_members zero xs = []
get_members (suc k) [] = []
get_members (suc k) (n ∷ xs) = take n xs ∷ get_members k (drop n xs)

abbrev get_membership : List ℕ → Option MembershipState
get_membership [] = none
get_membership (k ∷ xs) = some (record { members = get_members k xs })

instance abbrev pub membership_codec : Json MembershipState
membership_codec = record {
  marshal = λ s. length s.members ∷ put_members s.members;
  unmarshal = get_membership;
  failure = λ bs. first_value;
}

get_members-put_members : (ms : List Bytes) → get_members (length ms) (put_members ms) ≡ ms
get_members-put_members [] = refl
get_members-put_members (m ∷ ms) = rw (take-append, drop-append, get_members-put_members ms) refl

pub membership_codec_back :
    (s : MembershipState) → membership_codec.unmarshal (membership_codec.marshal s) ≡ some s
membership_codec_back s = rw get_members-put_members refl

abbrev put_entries : Map Bytes Version → List ℕ
put_entries [] = []
put_entries ((p, v) ∷ m) = v.epoch ∷ v.sequence ∷ put_text p (put_entries m)

abbrev get_entries : ℕ → List ℕ → Map Bytes Version
get_entries (suc k) (epoch ∷ sequence ∷ n ∷ xs) =
    (take n xs, record { epoch = epoch; sequence = sequence }) ∷ get_entries k (drop n xs)
get_entries _ _ = []

abbrev get_watermarks : List ℕ → Option WatermarkState
get_watermarks [] = none
get_watermarks (k ∷ xs) = some (record { watermarks = some (get_entries k xs) })

abbrev put_watermarks : Option (Map Bytes Version) → List ℕ
put_watermarks none = []
put_watermarks (some m) = length m ∷ put_entries m

instance abbrev pub watermark_codec : Json WatermarkState
watermark_codec = record {
  marshal = λ s. put_watermarks s.watermarks;
  unmarshal = get_watermarks;
  failure = λ bs. first_value;
}

get_entries-put_entries : (m : Map Bytes Version) → get_entries (length m) (put_entries m) ≡ m
get_entries-put_entries [] = refl
get_entries-put_entries ((p, v) ∷ m) = rw (take-append, drop-append, get_entries-put_entries m) refl

pub watermark_codec_back :
    (m : Map Bytes Version)
    → watermark_codec.unmarshal (watermark_codec.marshal (record { watermarks = some m }))
      ≡ some (record { watermarks = some m })
watermark_codec_back m = rw get_entries-put_entries refl
