-- ===== src/Tests/Registry.antt =====
-- An operator's hold and a registry of two projects (internal/store/store.go).
use secondhand.Base.{
  ◌≡◌, refl, false, ◌&&◌, List, [], ◌∷◌, none, some, if◌then◌else◌, ◌==◌, string_eq, ok,
}
use secondhand.Store.Types.{Hold, Project}
use secondhand.Store.Table.{get, IsKeyed}
use secondhand.Store.Tables.{Tables, empty_tables, hold_id_of, Engine, meets, autocommit}
use secondhand.Store.Holds.{set_hold_if_not_other_kind, clear_hold_if_kind, read_hold, is_free_for}
use secondhand.Store.Holds.Kinds.{set_hold_if_not_other_kind_lem, clear_hold_if_kind_lem}
use secondhand.Store.Holds.Positions.{
  RegistryCommand, add_with, set_url_with, remove_with, register_all, IsRegistry,
  register_all-IsRegistry,
}
use secondhand.Tests.Fleet.{works, locked}

abbrev operator_hold : Hold
operator_hold = record {
  id = "fix-typo";
  kind = "operator";
  reason = "review first";
  blocked_on = "";
  set_at = "10:00";
  inferred = false;
}

abbrev limit_hold : Hold
limit_hold = record operator_hold { kind = "limit"; reason = "usage limit" }

abbrev held : Tables
held = record empty_tables { holds = operator_hold ∷ [] }

set_hold_if_not_other_kind_lem_example :
    ((set_hold_if_not_other_kind works limit_hold held).0
      ≡ ok (is_free_for limit_hold (read_hold "fix-typo" held)))
    × (read_hold "fix-typo" (set_hold_if_not_other_kind works limit_hold held).1 ≡ (
        if is_free_for limit_hold (read_hold "fix-typo" held)
          && operator_hold.id == operator_hold.id
        then some limit_hold
        else read_hold "fix-typo" held))
set_hold_if_not_other_kind_lem_example =
    set_hold_if_not_other_kind_lem works limit_hold held "fix-typo" refl

refused :
    read_hold "fix-typo" (set_hold_if_not_other_kind works limit_hold held).1 ≡ some operator_hold
unfolding read_hold set_hold_if_not_other_kind get autocommit
refused = refl

held-IsKeyed : IsKeyed hold_id_of held.holds
unfolding get
held-IsKeyed = (refl, tt)

clear_hold_if_kind_lem_example :
    ((clear_hold_if_kind works "fix-typo" "limit" held).0
      ≡ ok (meets (λ h. h.kind == "limit") (read_hold "fix-typo" held)))
    × (read_hold "fix-typo" (clear_hold_if_kind works "fix-typo" "limit" held).1 ≡ (
        if meets (λ h. h.kind == "limit") (read_hold "fix-typo" held)
          && operator_hold.id == operator_hold.id
        then none
        else read_hold "fix-typo" held))
clear_hold_if_kind_lem_example =
    clear_hold_if_kind_lem works "fix-typo" "limit" held "fix-typo" held-IsKeyed refl

abbrev hand : Project
hand = record {
  name = "hand";
  url = "git@host:hand";
  mode = "direct-PR";
  upstream = "";
  position = 0;
}

abbrev site : Project
site = record hand { name = "site" }

abbrev registered : List (Engine × RegistryCommand)
registered =
    (works, add_with hand)
    ∷ (works, add_with site)
    ∷ (works, add_with hand)
    ∷ (locked, set_url_with "site" "git@host:site")
    ∷ (works, remove_with "hand")
    ∷ (works, add_with hand)
    ∷ []

empty-IsRegistry : IsRegistry empty_tables
empty-IsRegistry = record { keyed = tt; ordered = tt }

register_all-IsRegistry_example : IsRegistry (register_all registered empty_tables)
register_all-IsRegistry_example = register_all-IsRegistry registered empty_tables empty-IsRegistry
