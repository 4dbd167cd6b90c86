-- ===== src/Tests/Routes.antt =====
-- A route for a ship task, a quoted argument, the URL of a pull request, and the evidence about a
-- stopped worker (internal/routing, internal/shellquote, internal/state/pr.go, internal/attention).
use secondhand.Base.{
  ◌≡◌, ◌↔◌, refl, String, Bool, true, false, ◌&&◌, ◌||◌, not, [], ◌∷◌, ◌++◌, Option, some, codes,
  ◌==◌, string_eq,
}
use secondhand.Report.Line.{report_paused}
use secondhand.Attention.{Evidence, needs_attention, unreported_evidence}
use secondhand.Attention.Verdict.{asks_for_supervisor, needs_attention_lem}
use secondhand.Shellquote.{quote, read_word, outside, read_word-quote}
use secondhand.State.PullRequest.{parse_pr_url}
use secondhand.State.PullRequest.Shape.{IsPrUrl, parse_pr_url-IsPrUrl}
use secondhand.Routing.Profile.{Texts}
use secondhand.Routing.Resolver.{Request, Config, LegacyDefaults, Availability, resolve}
use secondhand.Routing.Choice.{IsRunnable, IfResolved, resolve-IsRunnable}

-- A worker that paused and has not been acknowledged.
abbrev paused : Evidence
paused = record (unreported_evidence false) { reported_state = report_paused; report_claim = true }

needs_attention_lem_example : needs_attention paused ≡ (
    paused.report_unreadable
    || paused.unacknowledged
    || paused.unreported
    || paused.runtime_unknown
    || paused.unreachable
    || paused.parked
    || paused.repair
    || paused.send_uncertain
    || paused.send_pending
    || paused.send_partial
    || (paused.report_claim && asks_for_supervisor paused.reported_state)
    || not (paused.gate_problem == ""))
needs_attention_lem_example = needs_attention_lem paused

read_word-quote_example :
    read_word outside (quote (codes "it's") ++ codes " --now") ≡ some (codes "it's", codes " --now")
read_word-quote_example = read_word-quote (codes "it's") (codes " --now") refl

parse_pr_url-IsPrUrl_example :
    (parse_pr_url (codes "https://github.com/atqamz/secondhand/pull/12")
      ≡ some (codes "atqamz/secondhand"))
    ↔ IsPrUrl (codes "https://github.com/atqamz/secondhand/pull/12") (codes "atqamz/secondhand")
parse_pr_url-IsPrUrl_example =
    parse_pr_url-IsPrUrl (codes "https://github.com/atqamz/secondhand/pull/12")
      (codes "atqamz/secondhand")

abbrev texts : Texts
texts = record { base = λ name. name; to_upper = λ name. name }

abbrev request : Request
request = record {
  kind = "ship";
  declaration = record {
    model = "";
    effort = "";
    execution_class = "standard";
    planned_against = "";
  };
  brief_has_front_matter = true;
  profile = "";
  profile_from_flag = false;
  harness = "";
  harness_from_flag = false;
  model = "";
  model_from_flag = false;
  effort = "";
  effort_from_flag = false;
}

abbrev config : Config
config = record {
  profiles = record { name = "fast"; harness = "claude"; model = "opus"; effort = "" } ∷ [];
  routes = record { kind = "ship"; execution_class = "standard"; profile = "fast" } ∷ [];
}

abbrev defaults : LegacyDefaults
defaults = record {
  harness = "claude";
  configured_harness = "";
  models = λ h. "";
  efforts = λ h. "";
}

abbrev is_claude : Option (String → Bool)
is_claude = some (λ h. h == "claude")

abbrev available_here : Availability
available_here = record {
  is_supported = is_claude;
  on_path = is_claude;
  supports_model = is_claude;
  supports_effort = is_claude;
  carries_prompt = is_claude;
}

resolve-IsRunnable_example :
    IfResolved (IsRunnable available_here) (resolve texts request config defaults available_here)
resolve-IsRunnable_example = resolve-IsRunnable texts request config defaults available_here
