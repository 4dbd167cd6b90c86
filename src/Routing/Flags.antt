-- ===== src/Routing/Flags.antt =====
-- An operator's flags decide over a brief, a profile and the defaults (internal/routing/resolver.go).
use secondhand.Base.{
  String, ◌≡◌, refl, Bool, true, ◌&&◌, not, List, ◌∷◌, arith, if_of, ◌==◌, string_eq, Result, ok,
  err,
}
use secondhand.Routing.Profile.{Profile, Texts, execution_class_mechanical, validate_task_kind}
use secondhand.Routing.Resolver.{
  Request, LegacyDefaults, Config, Availability, RoutingSource, ResolvedRoute, RouteError,
  available, first_non_empty, flag_value, legacy_harness, legacy_with, resolve_legacy, checked,
  profiled_with, selected_profile, resolve_profiled, resolve,
}
use secondhand.Routing.Choice.{IfResolved, unless_invalid-IfResolved}

-- Each setting that a flag gave a value is the route's, and the declared class is kept.
pub record IsChosen (req : Request) (r : ResolvedRoute) : Type 0 where
  pub harness : (req.harness_from_flag && not (req.harness == "")) ≡ true → r.harness ≡ req.harness
  pub model : (req.model_from_flag && not (req.model == "")) ≡ true → r.model ≡ req.model
  pub effort : (req.effort_from_flag && not (req.effort == "")) ≡ true → r.effort ≡ req.effort
  pub class : r.execution_class ≡ req.declaration.execution_class

first_non_empty-flag :
    (value : String) (from_flag : Bool) (rest : List String)
    → (from_flag && not (value == "")) ≡ true
    → first_non_empty (flag_value value from_flag ∷ rest) ≡ value
unfolding first_non_empty
first_non_empty-flag value from_flag rest h = ground arith

module _ (req : Request) (defaults : LegacyDefaults) (av : Availability) where
  abbrev Follows : Result RouteError ResolvedRoute → Type 0
  Follows = IfResolved (IsChosen req)

  checked-Follows :
      (p : Profile) (r : ResolvedRoute) → IsChosen req r → Follows (checked req av p r)
  unfolding checked
  checked-Follows p r h = if_of Follows (r.harness == "") _ _ tt (
      if_of Follows (not (available av.is_supported r.harness)) _ _ tt (
        if_of Follows (not (available av.on_path r.harness)) _ _ tt (
          if_of Follows (not (r.model == "") && not (available av.supports_model r.harness)) _ _ tt
            (if_of Follows (not (r.effort == "") && not (available av.supports_effort r.harness)) _
              _ tt
              (if_of Follows
                (r.execution_class == execution_class_mechanical
                  && not (available av.carries_prompt r.harness))
                _ _ tt
                (record {
                  harness = h.harness;
                  model = h.model;
                  effort = h.effort;
                  class = h.class;
                }))))))

  profiled_with-Follows :
      (q : Result RouteError (Profile × RoutingSource)) → Follows (profiled_with req defaults av q)
  unfolding profiled_with
  profiled_with-Follows (err e) = tt
  profiled_with-Follows (ok (p, source)) =
      if_of Follows (not (available av.is_supported p.harness)) _ _ tt (
        checked-Follows p _ (record {
          harness = first_non_empty-flag req.harness req.harness_from_flag _;
          model = first_non_empty-flag req.model req.model_from_flag _;
          effort = first_non_empty-flag req.effort req.effort_from_flag _;
          class = refl;
        }))

  resolve_legacy-Follows : Follows (resolve_legacy req defaults av)
  unfolding resolve_legacy legacy_with
  resolve_legacy-Follows = if_of Follows (legacy_harness req defaults == "") _ _ tt (
      if_of Follows (not (available av.is_supported (legacy_harness req defaults))) _ _ tt (record {
        harness = first_non_empty-flag req.harness req.harness_from_flag _;
        model = first_non_empty-flag req.model req.model_from_flag _;
        effort = first_non_empty-flag req.effort req.effort_from_flag _;
        class = refl;
      }))

-- Where `Resolve` answers with a route, by whichever way, a harness, model or effort that the operator
-- gave by a flag, not empty, is the route's, whatever the brief, the profile and the defaults say; and
-- the route keeps the class that the brief declares.
pub resolve-IsChosen :
    (texts : Texts) (req : Request) (config : Config) (defaults : LegacyDefaults)
    (av : Availability)
    → IfResolved (IsChosen req) (resolve texts req config defaults av)
unfolding resolve resolve_profiled
resolve-IsChosen texts req config defaults av =
    unless_invalid-IfResolved (IsChosen req) (validate_task_kind req.kind) _ (
      if_of (IfResolved (IsChosen req))
        (req.declaration.execution_class == "" && not req.profile_from_flag) _ _
        (resolve_legacy-Follows req defaults av)
        (unless_invalid-IfResolved (IsChosen req) _ _
          (profiled_with-Follows req defaults av (selected_profile texts req config))))
