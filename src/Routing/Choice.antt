-- ===== src/Routing/Choice.antt =====
-- What a resolved route can be relied on for: its harness can run what the route says.
use secondhand.Base.{
  String, ◌≡◌, refl, Bool, true, false, ◌||◌, ◌&&◌, not, [], Option, none, some, arith, if_of,
  if_with, sym, ◌∙◌, ◌==◌, string_eq, Result, ok, err,
}
use mathlib.Core.Bool.{false≢true}
use secondhand.Routing.Profile.{
  Profile, Route, ConfigError, Texts, execution_class_mechanical, validate_task_kind,
}
use secondhand.Routing.Resolver.{
  Request, LegacyDefaults, Config, Availability, RoutingSource, explicit_profile, route, legacy,
  ResolvedRoute, RouteError, available, legacy_harness, legacy_route, legacy_with, resolve_legacy,
  checked, profiled_with, unless_invalid, selected_profile, resolve_profiled, resolve,
  legacy_warnings, profile_named, profile_of_route,
}

abbrev pub is_legacy : RoutingSource → Bool
is_legacy legacy = true
is_legacy _ = false

-- The harness carries the route's settings and, for mechanical work, the worker's guidance.
abbrev pub carries_settings : Availability → ResolvedRoute → Bool
carries_settings av r =
    (r.model == "" || available av.supports_model r.harness)
    && (r.effort == "" || available av.supports_effort r.harness)
    && (not (r.execution_class == execution_class_mechanical)
        || available av.carries_prompt r.harness)

pub record IsRunnable (av : Availability) (r : ResolvedRoute) : Type 0 where
  pub named : (r.harness == "") ≡ false
  pub supported : available av.is_supported r.harness ≡ true
  pub installed : (is_legacy r.source || available av.on_path r.harness) ≡ true
  pub carried : (is_legacy r.source || carries_settings av r) ≡ true
  pub warned : is_legacy r.source ≡ true → r.warnings ≡ [] → carries_settings av r ≡ true

-- What holds of a route, if there is one.
abbrev pub IfResolved : (ResolvedRoute → Type 0) → Result RouteError ResolvedRoute → Type 0
IfResolved P (err e) = Unit
IfResolved P (ok r) = P r

not_inv : {b : Bool} → not b ≡ false → b ≡ true
not_inv h = ground arith

all_carried :
    (a b c d e f : Bool)
    → (not a && not b) ≡ false
    → (not c && not d) ≡ false
    → (e && not f) ≡ false
    → ((a || b) && (c || d) && (not e || f)) ≡ true
all_carried a b c d e f h k l = ground arith

-- A selected profile does not come from the legacy defaults.
abbrev IsProfiled : Result RouteError (Profile × RoutingSource) → Type 0
IsProfiled (err e) = Unit
IsProfiled (ok (p, source)) = is_legacy source ≡ false

module _ (req : Request) (defaults : LegacyDefaults) (av : Availability) where
  abbrev Runs : Result RouteError ResolvedRoute → Type 0
  Runs = IfResolved (IsRunnable av)

  dropped-nothing : (r : ResolvedRoute) → legacy_warnings r av ≡ [] → carries_settings av r ≡ true
  dropped-nothing r h = ground arith

  legacy_with-IsRunnable : (harness : String) → Runs (legacy_with req defaults av harness)
  unfolding legacy_with
  legacy_with-IsRunnable harness =
      if_with Runs (harness == "") _ _ (λ empty. tt)
        λ there.
          if_with Runs (not (available av.is_supported harness)) _ _ (λ unknown. tt)
            λ known. record {
              named = there;
              supported = not_inv known;
              installed = refl;
              carried = refl;
              warned = λ l silent. dropped-nothing (legacy_route req defaults harness) silent;
            }

  -- A route whose checks passed.
  checked-IsRunnable :
      (p : Profile) (r : ResolvedRoute) → is_legacy r.source ≡ false → Runs (checked req av p r)
  unfolding checked
  checked-IsRunnable p r profiled =
      if_with Runs (r.harness == "") _ _ (λ empty. tt)
        λ there.
          if_with Runs (not (available av.is_supported r.harness)) _ _ (λ unknown. tt)
            λ known.
              if_with Runs (not (available av.on_path r.harness)) _ _ (λ missing. tt)
                λ found.
                  if_with Runs (not (r.model == "") && not (available av.supports_model r.harness))
                    _ _ (λ refused. tt)
                    λ modelled.
                      if_with Runs
                        (not (r.effort == "") && not (available av.supports_effort r.harness)) _ _
                        (λ refused. tt)
                        λ made.
                          if_with Runs
                            (r.execution_class == execution_class_mechanical
                              && not (available av.carries_prompt r.harness))
                            _ _ (λ refused. tt)
                            λ guided. record {
                              named = there;
                              supported = not_inv known;
                              installed = rw profiled (not_inv found);
                              carried = rw profiled (all_carried _ _ _ _ _ _ modelled made guided);
                              warned = λ l silent. absurd (false≢true (sym profiled ∙ l));
                            }

  profiled_with-IsRunnable :
      (q : Result RouteError (Profile × RoutingSource))
      → IsProfiled q
      → Runs (profiled_with req defaults av q)
  unfolding profiled_with
  profiled_with-IsRunnable (err e) h = tt
  profiled_with-IsRunnable (ok (p, source)) h =
      if_of Runs (not (available av.is_supported p.harness)) _ _ tt (checked-IsRunnable p _ h)

module _ (texts : Texts) (req : Request) (config : Config) where
  profile_named-IsProfiled :
      (e : Option ConfigError) (o : Option Profile) (source : RoutingSource)
      → is_legacy source ≡ false
      → IsProfiled (profile_named e o source)
  unfolding profile_named
  profile_named-IsProfiled (some e) o source h = tt
  profile_named-IsProfiled none none source h = tt
  profile_named-IsProfiled none (some p) source h = h

  profile_of_route-IsProfiled : (o : Option Route) → IsProfiled (profile_of_route texts config o)
  profile_of_route-IsProfiled none = tt
  profile_of_route-IsProfiled (some r) = profile_named-IsProfiled _ _ route refl

  selected_profile-IsProfiled : IsProfiled (selected_profile texts req config)
  unfolding selected_profile
  selected_profile-IsProfiled =
      if_of IsProfiled req.profile_from_flag _ _
        (profile_named-IsProfiled _ _ explicit_profile refl) (profile_of_route-IsProfiled _)

pub unless_invalid-IfResolved :
    (P : ResolvedRoute → Type 0) (o : Option ConfigError) (r : Result RouteError ResolvedRoute)
    → IfResolved P r
    → IfResolved P (unless_invalid o r)
unless_invalid-IfResolved P (some e) r h = tt
unless_invalid-IfResolved P none r h = h

-- Where `Resolve` answers with a route, its harness has a name and is supported. A route of a profile
-- has a harness that is installed, that takes the route's model and effort where it has one, and that
-- carries the worker's guidance where the work is mechanical. A legacy route that comes without a
-- warning has such a harness too, except that nothing is said of its installation.
pub resolve-IsRunnable :
    (texts : Texts) (req : Request) (config : Config) (defaults : LegacyDefaults)
    (av : Availability)
    → IfResolved (IsRunnable av) (resolve texts req config defaults av)
unfolding resolve resolve_legacy resolve_profiled
resolve-IsRunnable texts req config defaults av =
    unless_invalid-IfResolved (IsRunnable av) (validate_task_kind req.kind) _ (
      if_of (IfResolved (IsRunnable av))
        (req.declaration.execution_class == "" && not req.profile_from_flag) _ _
        (legacy_with-IsRunnable req defaults av (legacy_harness req defaults))
        (unless_invalid-IfResolved (IsRunnable av) _ _ (
          profiled_with-IsRunnable req defaults av (selected_profile texts req config)
            (selected_profile-IsProfiled texts req config))))
