-- ===== src/Node/Diagnostic.antt =====
-- The state of a diagnostic feed, include/mowgli_unicore_gnss/diagnostic_state.hpp.
use unicore_ros.Base.{Bool, not, if◌then◌else◌}
use unicore_ros.Base.Text.{Text, codes}

pub data DiagnosticFeedState : Type 0 where
  disabled stale live : DiagnosticFeedState

unfoldable pub diagnostic_feed_state : Bool → Bool → DiagnosticFeedState
diagnostic_feed_state enabled fresh_data_available =
    if not enabled
    then DiagnosticFeedState.disabled
    else if fresh_data_available
    then DiagnosticFeedState.live
    else DiagnosticFeedState.stale

unfoldable pub diagnostic_feed_state_name : DiagnosticFeedState → Text
diagnostic_feed_state_name DiagnosticFeedState.disabled = codes "disabled"
diagnostic_feed_state_name DiagnosticFeedState.stale = codes "stale"
diagnostic_feed_state_name DiagnosticFeedState.live = codes "live"
