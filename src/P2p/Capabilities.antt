-- ===== src/P2p/Capabilities.antt =====
-- p2p/capabilities.go: the capabilities that two peers negotiated. The names of the capabilities are
-- those of internal/lifecycle/transport.go.
use stream_hive.Common.{Bool, false, ◌||◌, List, [], ◌∷◌, if◌then◌else◌}
use stream_hive.Common.Bytes.{Bytes, bytes_equal}
use stream_hive.Lifecycle.Transport.{lifecycle_capability}

pub data CapabilityStatus : Type 0 where
  ready optional_raw_only required_unavailable : CapabilityStatus

unfoldable pub has_capability : List Bytes → Bytes → Bool
has_capability [] capability = false
has_capability (c ∷ cs) capability = bytes_equal c capability || has_capability cs capability

unfoldable pub lifecycle_capability_status : List Bytes → Bool → CapabilityStatus
unfolding has_capability
lifecycle_capability_status capabilities required =
    if has_capability capabilities lifecycle_capability
    then CapabilityStatus.ready
    else if required
    then CapabilityStatus.required_unavailable
    else CapabilityStatus.optional_raw_only
