-- ===== src/Watcher/Filter.antt =====
-- `EventFilter`, `KnownKinds`, `CatchUpFilter`, `NotifyFilter` and `Wake.Current` of
-- internal/watcher/events.go. A filter is the list of the keys that the source's map has, all of them
-- with the value true.
use secondhand.Base.{
  String, ◌||◌, Bool, true, false, List, [], ◌∷◌, ◌==◌, string_eq, ◌&&◌, not, if◌then◌else◌, any,
}
use secondhand.Watcher.State.{
  MonitorTarget, kind_idle_unreported, kind_blocked, kind_failed, kind_stale, kind_pr_merged,
  kind_gate_absent, kind_gate_unknown, kind_pr_not_recorded, kind_pr_record_unknown,
  kind_report_working, kind_report_paused, kind_report_blocked, kind_report_needs_decision,
  kind_report_done, kind_report_failed, kind_report_malformed, kind_parked, kind_usage_limit,
  kind_usage_limit_resumed, kind_usage_limit_stuck,
}

pub known_kinds : List String
known_kinds =
    kind_idle_unreported ∷ kind_blocked ∷ kind_failed ∷ kind_stale ∷ kind_pr_merged
    ∷ kind_gate_absent ∷ kind_gate_unknown ∷ kind_pr_not_recorded ∷ kind_pr_record_unknown
    ∷ kind_report_working ∷ kind_report_paused ∷ kind_report_blocked ∷ kind_report_needs_decision
    ∷ kind_report_done ∷ kind_report_failed ∷ kind_report_malformed ∷ kind_parked ∷ kind_usage_limit
    ∷ kind_usage_limit_resumed ∷ kind_usage_limit_stuck ∷ []

abbrev pub has_kind : String → List String → Bool
has_kind kind = any (λ k. k == kind)

-- `f[k] = true` of a key that is there changes nothing.
unfoldable pub new_event_filter : List String → List String
new_event_filter [] = []
new_event_filter (k ∷ kinds) = let f = new_event_filter kinds in if has_kind k f then f else k ∷ f

-- Go's `delete`
unfoldable pub delete : List String → String → List String
delete [] kind = []
delete (k ∷ f) kind = let rest = delete f kind in if k == kind then rest else k ∷ rest

unfoldable pub matches : List String → String → Bool
matches [] kind = true
matches (k ∷ f) kind = has_kind kind (k ∷ f)

unfoldable pub catch_up_filter : List String
unfolding known_kinds
catch_up_filter = delete (new_event_filter known_kinds) kind_stale

unfoldable pub notify_filter : List String
notify_filter = new_event_filter (
    kind_blocked ∷ kind_report_blocked ∷ kind_failed ∷ kind_report_failed
    ∷ kind_report_needs_decision ∷ kind_report_done ∷ kind_usage_limit_stuck ∷ [])

pub record Wake : Type 0 where
  pub fleet_id : String
  pub kind : String
  pub event_kind : String
  pub target_id : String
  pub currentness : String
  pub reason : String

-- `Wake.Current`, of the orientation's fleet and monitors.
unfoldable pub is_current : Wake → String → List MonitorTarget → Bool
is_current w fleet_id monitors =
    if w.fleet_id == "" || not (w.fleet_id == fleet_id) || w.target_id == "" || w.currentness == ""
    then false
    else any
        (λ target.
          target.id == w.target_id && target.kind == w.kind && target.currentness == w.currentness)
        monitors
