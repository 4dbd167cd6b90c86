-- ===== src/Routing/Profile.antt =====
-- `Profile`, `Route`, `ValidateProfileName`, `ValidateProfile` and `ValidateRoute` of
-- internal/routing/profile.go and validation.go. A text is its code points. `filepath.Base` and
-- `strings.ToUpper` are Go's, in `Texts`; the harness catalogue is an argument, `Catalogue`.
use secondhand.Base.{
  ℕ, String, Bool, false, ◌||◌, ◌&&◌, not, List, [], ◌∷◌, Option, none, some, if◌then◌else◌, ◌==◌,
  string_eq, nat_beq, ltb, leb, any, code, codes, reverse, Bytes,
}

abbrev pub task_kind_scout : String
task_kind_scout = "scout"

abbrev pub task_kind_ship : String
task_kind_ship = "ship"

abbrev pub task_kinds : List String
task_kinds = task_kind_scout ∷ task_kind_ship ∷ []

abbrev pub execution_class_mechanical : String
execution_class_mechanical = "mechanical"

abbrev pub execution_class_standard : String
execution_class_standard = "standard"

abbrev pub execution_class_deep : String
execution_class_deep = "deep"

abbrev pub execution_classes : List String
execution_classes =
    execution_class_mechanical ∷ execution_class_standard ∷ execution_class_deep ∷ []

pub record Profile : Type 0 where
  pub name : String
  pub harness : String
  pub model : String
  pub effort : String

pub record Route : Type 0 where
  pub kind : String
  pub execution_class : String
  pub profile : String

-- Why a profile or a route is refused.
pub data ConfigError : Type 0 where
  name_required name_unsafe not_one_line harness_required : ConfigError
  unsupported_harness unsupported_model unsupported_effort : ConfigError
  invalid_task_kind invalid_execution_class : ConfigError

pub record Texts : Type 0 where
  pub base : String → String
  pub to_upper : String → String

pub record Catalogue : Type 0 where
  pub is_supported : String → Bool
  pub supports_model : String → Bool
  pub supports_effort : String → Bool

abbrev pub windows_reserved_names : List String
windows_reserved_names =
    "CON" ∷ "PRN" ∷ "AUX" ∷ "NUL" ∷ "COM1" ∷ "COM2" ∷ "COM3" ∷ "COM4" ∷ "COM5" ∷ "COM6" ∷ "COM7"
    ∷ "COM8" ∷ "COM9" ∷ "LPT1" ∷ "LPT2" ∷ "LPT3" ∷ "LPT4" ∷ "LPT5" ∷ "LPT6" ∷ "LPT7" ∷ "LPT8"
    ∷ "LPT9" ∷ []

abbrev pub among : String → List String → Bool
among name = any (λ k. k == name)

-- `strings.ContainsAny`
abbrev pub contains_any : String → Bytes → Bool
contains_any text chars = any (λ c. any (λ d. nat_beq c d) chars) (codes text)

-- `strings.HasSuffix` of one character.
ends_from : ℕ → Bytes → Bool
ends_from c [] = false
ends_from c (d ∷ ds) = nat_beq c d

abbrev pub ends_with : ℕ → String → Bool
unfolding ends_from
ends_with c text = ends_from c (reverse (codes text))

-- `unicode.IsControl`
abbrev pub is_control : ℕ → Bool
is_control c = ltb c 32 || (leb 127 c && ltb c 160)

-- `strings.SplitN(name, ".", 2)[0]`
unfoldable pub before_dot : String → String
before_dot String.[] = ""
before_dot (String.◌∷◌ c s) =
    let rest = before_dot s in if nat_beq (code c) b'.' then "" else String.◌∷◌ c rest

-- The characters of `<>:"/\|?*`.
abbrev pub unsafe_characters : Bytes
unsafe_characters = b'<' ∷ b'>' ∷ b':' ∷ 34 ∷ b'/' ∷ 92 ∷ b'|' ∷ b'?' ∷ b'*' ∷ []

abbrev pub or_else {ℓ} : {A : Type ℓ} → Option A → Option A → Option A
or_else (some e) o = some e
or_else none o = o

unfoldable pub validate_task_kind : String → Option ConfigError
validate_task_kind kind = if not (among kind task_kinds) then some invalid_task_kind else none

unfoldable pub validate_execution_class : String → Option ConfigError
validate_execution_class class =
    if not (among class execution_classes) then some invalid_execution_class else none

module _ (texts : Texts) where
  unfoldable pub validate_profile_name : String → Option ConfigError
  validate_profile_name name =
      if name == ""
      then some name_required
      else if name == "." || name == ".." || ends_with b'.' name || ends_with b' ' name
      then some name_unsafe
      else if contains_any name unsafe_characters
      then some name_unsafe
      else if any is_control (codes name)
      then some name_unsafe
      else if not (texts.base name == name)
      then some name_unsafe
      else if among (texts.to_upper (before_dot name)) windows_reserved_names
      then some name_unsafe
      else none

  -- Behind the name.
  unfoldable pub validate_settings : Catalogue → Profile → Option ConfigError
  validate_settings catalogue p =
      if contains_any p.harness (13 ∷ 10 ∷ [])
        || contains_any p.model (13 ∷ 10 ∷ [])
        || contains_any p.effort (13 ∷ 10 ∷ [])
      then some not_one_line
      else if p.harness == ""
      then some harness_required
      else if not (catalogue.is_supported p.harness)
      then some unsupported_harness
      else if not (p.model == "") && not (catalogue.supports_model p.harness)
      then some unsupported_model
      else if not (p.effort == "") && not (catalogue.supports_effort p.harness)
      then some unsupported_effort
      else none

  unfoldable pub validate_profile : Catalogue → Profile → Option ConfigError
  validate_profile catalogue p =
      or_else (validate_profile_name p.name) (validate_settings catalogue p)

  unfoldable pub validate_route : Route → Option ConfigError
  validate_route r =
      or_else (validate_task_kind r.kind)
        (or_else (validate_execution_class r.execution_class) (validate_profile_name r.profile))
