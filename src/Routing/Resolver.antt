-- ===== src/Routing/Resolver.antt =====
-- `Resolve` and what it calls of internal/routing/resolver.go. The probes of a harness are arguments,
-- `Availability`; one that is nil answers no.
use secondhand.Base.{
  String, Bool, false, ◌&&◌, not, List, [], ◌∷◌, ◌++◌, Option, none, some, if◌then◌else◌, ◌==◌,
  string_eq, Result, ok, err,
}
use secondhand.Routing.Profile.{
  Profile, Route, ConfigError, Texts, execution_class_mechanical, validate_profile_name,
  validate_task_kind, validate_execution_class,
}

-- internal/brief/brief.go
pub record Declaration : Type 0 where
  pub model : String
  pub effort : String
  pub execution_class : String
  pub planned_against : String

pub record Request : Type 0 where
  pub kind : String
  pub declaration : Declaration
  pub brief_has_front_matter : Bool
  pub profile : String
  pub profile_from_flag : Bool
  pub harness : String
  pub harness_from_flag : Bool
  pub model : String
  pub model_from_flag : Bool
  pub effort : String
  pub effort_from_flag : Bool

-- A map's value at a key that it has not is the empty text.
pub record LegacyDefaults : Type 0 where
  pub harness : String
  pub configured_harness : String
  pub models : String → String
  pub efforts : String → String

pub record Config : Type 0 where
  pub profiles : List Profile
  pub routes : List Route

pub record Availability : Type 0 where
  pub is_supported : Option (String → Bool)
  pub on_path : Option (String → Bool)
  pub supports_model : Option (String → Bool)
  pub supports_effort : Option (String → Bool)
  pub carries_prompt : Option (String → Bool)

pub data RoutingSource : Type 0 where
  explicit_profile route legacy : RoutingSource

-- What a warning's text says: the brief's settings that override the profile's, or what the harness
-- cannot carry.
pub data Field : Type 0 where
  model_field effort_field decision_rule disclaimer : Field

pub data Warning : Type 0 where
  brief_overrides : (fields : List Field) (profile : String) → Warning
  cannot_carry : (harness : String) (fields : List Field) → Warning

pub record ResolvedRoute : Type 0 where
  pub profile : String
  pub source : RoutingSource
  pub harness : String
  pub model : String
  pub effort : String
  pub execution_class : String
  pub planned_against : String
  pub brief_has_front_matter : Bool
  pub warnings : List Warning

pub data RouteError : Type 0 where
  invalid : ConfigError → RouteError
  route_not_configured profile_not_configured profile_harness_unknown missing_harness : RouteError
  harness_unknown harness_not_installed takes_no_model takes_no_effort : RouteError
  cannot_carry_guidance : RouteError

unfoldable pub available : Option (String → Bool) → String → Bool
available none name = false
available (some check) name = check name

unfoldable pub first_non_empty : List String → String
first_non_empty [] = ""
first_non_empty (v ∷ values) =
    let rest = first_non_empty values in if not (v == "") then v else rest

abbrev pub flag_value : String → Bool → String
flag_value value from_flag = if from_flag then value else ""

unfoldable pub find_route : List Route → String → String → Option Route
find_route [] kind class = none
find_route (r ∷ routes) kind class =
    let rest = find_route routes kind class in
    if r.kind == kind && r.execution_class == class then some r else rest

unfoldable pub find_profile : List Profile → String → Option Profile
find_profile [] name = none
find_profile (p ∷ profiles) name =
    let rest = find_profile profiles name in if p.name == name then some p else rest

abbrev pub overridden : Declaration → Profile → List Field
overridden d p =
    (if not (d.model == "") && not (p.model == "") then model_field ∷ [] else [])
    ++ (if not (d.effort == "") && not (p.effort == "") then effort_field ∷ [] else [])

abbrev pub as_warning : (List Field → Warning) → List Field → List Warning
as_warning f [] = []
as_warning f (x ∷ xs) = f (x ∷ xs) ∷ []

-- `briefProfileOverrideWarning`
abbrev pub brief_profile_override_warning : Declaration → Profile → List Warning
brief_profile_override_warning d p = as_warning (λ fs. brief_overrides fs p.name) (overridden d p)

abbrev pub dropped : ResolvedRoute → Availability → List Field
dropped r av =
    (if not (r.model == "") && not (available av.supports_model r.harness)
      then model_field ∷ []
      else [])
    ++ (if not (r.effort == "") && not (available av.supports_effort r.harness)
        then effort_field ∷ []
        else [])
    ++ (if not (available av.carries_prompt r.harness)
        then decision_rule ∷ (if r.brief_has_front_matter then disclaimer ∷ [] else [])
        else [])

abbrev pub legacy_warnings : ResolvedRoute → Availability → List Warning
legacy_warnings r av = as_warning (cannot_carry r.harness) (dropped r av)

-- The route that `Resolve` starts from.
abbrev pub started : Request → ResolvedRoute
started req = record {
  profile = "";
  source = legacy;
  harness = "";
  model = "";
  effort = "";
  execution_class = req.declaration.execution_class;
  planned_against = req.declaration.planned_against;
  brief_has_front_matter = req.brief_has_front_matter;
  warnings = [];
}

abbrev pub legacy_harness : Request → LegacyDefaults → String
legacy_harness req defaults =
    first_non_empty (flag_value req.harness req.harness_from_flag ∷ defaults.harness ∷ [])

abbrev pub legacy_route : Request → LegacyDefaults → String → ResolvedRoute
legacy_route req defaults harness = record (started req) {
  source = legacy;
  harness = harness;
  model = first_non_empty (
      flag_value req.model req.model_from_flag
      ∷ req.declaration.model
      ∷ defaults.models harness
      ∷ []);
  effort = first_non_empty (
      flag_value req.effort req.effort_from_flag
      ∷ req.declaration.effort
      ∷ defaults.efforts harness
      ∷ []);
}

unfoldable pub legacy_with :
    Request → LegacyDefaults → Availability → String → Result RouteError ResolvedRoute
legacy_with req defaults av harness =
    if harness == ""
    then err missing_harness
    else if not (available av.is_supported harness)
    then err harness_unknown
    else ok (record (legacy_route req defaults harness) {
      warnings = legacy_warnings (legacy_route req defaults harness) av;
    })

unfoldable pub resolve_legacy :
    Request → LegacyDefaults → Availability → Result RouteError ResolvedRoute
resolve_legacy req defaults av = legacy_with req defaults av (legacy_harness req defaults)

-- The profile of a name, behind its checks.
unfoldable pub profile_named :
    Option ConfigError
    → Option Profile
    → RoutingSource
    → Result RouteError (Profile × RoutingSource)
profile_named (some e) o source = err (invalid e)
profile_named none none source = err profile_not_configured
profile_named none (some p) source = ok (p, source)

abbrev pub profile_of_name :
    Texts → Config → String → RoutingSource → Result RouteError (Profile × RoutingSource)
profile_of_name texts config name source =
    profile_named (validate_profile_name texts name) (find_profile config.profiles name) source

abbrev pub profile_of_route :
    Texts → Config → Option Route → Result RouteError (Profile × RoutingSource)
profile_of_route texts config none = err route_not_configured
profile_of_route texts config (some r) = profile_of_name texts config r.profile route

unfoldable pub selected_profile :
    Texts → Request → Config → Result RouteError (Profile × RoutingSource)
selected_profile texts req config =
    if req.profile_from_flag
    then profile_of_name texts config req.profile explicit_profile
    else profile_of_route texts config
        (find_route config.routes req.kind req.declaration.execution_class)

abbrev pub profiled_harness : Request → LegacyDefaults → Profile → String
profiled_harness req defaults p =
    first_non_empty
      (flag_value req.harness req.harness_from_flag ∷ p.harness ∷ defaults.harness ∷ [])

abbrev pub profiled_route :
    Request → LegacyDefaults → Profile → RoutingSource → String → ResolvedRoute
profiled_route req defaults p source harness = record (started req) {
  profile = p.name;
  source = source;
  harness = harness;
  model = first_non_empty (
      flag_value req.model req.model_from_flag
      ∷ req.declaration.model
      ∷ p.model
      ∷ defaults.models harness
      ∷ []);
  effort = first_non_empty (
      flag_value req.effort req.effort_from_flag
      ∷ req.declaration.effort
      ∷ p.effort
      ∷ defaults.efforts harness
      ∷ []);
}

-- The checks of a route against its harness.
unfoldable pub checked :
    Request → Availability → Profile → ResolvedRoute → Result RouteError ResolvedRoute
checked req av p r =
    if r.harness == ""
    then err missing_harness
    else if not (available av.is_supported r.harness)
    then err harness_unknown
    else if not (available av.on_path r.harness)
    then err harness_not_installed
    else if not (r.model == "") && not (available av.supports_model r.harness)
    then err takes_no_model
    else if not (r.effort == "") && not (available av.supports_effort r.harness)
    then err takes_no_effort
    else if r.execution_class == execution_class_mechanical
        && not (available av.carries_prompt r.harness)
    then err cannot_carry_guidance
    else ok (record r { warnings = brief_profile_override_warning req.declaration p })

unfoldable pub profiled_with :
    Request
    → LegacyDefaults
    → Availability
    → Result RouteError (Profile × RoutingSource)
    → Result RouteError ResolvedRoute
profiled_with req defaults av (err e) = err e
profiled_with req defaults av (ok (p, source)) =
    if not (available av.is_supported p.harness)
    then err profile_harness_unknown
    else checked req av p (profiled_route req defaults p source (profiled_harness req defaults p))

-- Behind the check of a declared class.
abbrev pub unless_invalid :
    {A : Type 0} → Option ConfigError → Result RouteError A → Result RouteError A
unless_invalid (some e) r = err (invalid e)
unless_invalid none r = r

unfoldable pub resolve_profiled :
    Texts → Request → Config → LegacyDefaults → Availability → Result RouteError ResolvedRoute
resolve_profiled texts req config defaults av =
    unless_invalid
      (if not (req.declaration.execution_class == "")
        then validate_execution_class req.declaration.execution_class
        else none)
      (profiled_with req defaults av (selected_profile texts req config))

unfoldable pub resolve :
    Texts → Request → Config → LegacyDefaults → Availability → Result RouteError ResolvedRoute
resolve texts req config defaults av = unless_invalid (validate_task_kind req.kind) (
    if req.declaration.execution_class == "" && not req.profile_from_flag
    then resolve_legacy req defaults av
    else resolve_profiled texts req config defaults av)
