-- ===== src/Store/Holds.antt =====
-- The holds and the project registry of internal/store/store.go: `SetHold`, `SetHoldIfNotOtherKind`,
-- `ReadHold`, `ClearHold`, `ClearHoldIfKind`, `AddProject`, `SetProjectUpstream`, `SetProjectURL` and
-- `RemoveProject`.
pub mod Kinds
pub mod Positions
use secondhand.Base.{
  ℕ, ◌+◌, max, String, Bool, true, false, not, ◌&&◌, List, [], ◌∷◌, ◌++◌, Option, none, some,
  if◌then◌else◌, ◌==◌, string_eq, Result, ok, err,
}
use secondhand.Store.Types.{Hold, Project}
use secondhand.Store.Table.{get, modify, keep}
use secondhand.Store.Tables.{
  Tables, hold_id_of, project_name_of, StoreError, hold_not_found, project_exists,
  constraint_failed, Engine, Tx, autocommit, meets, is_some, on_constraint,
}
use secondhand.Store.Lifecycle.{answered}

-- `DO UPDATE SET …`, every column but the key.
abbrev pub updated : Hold → Hold → Hold
updated h old = record old {
  kind = h.kind;
  reason = h.reason;
  blocked_on = h.blocked_on;
  set_at = h.set_at;
  inferred = h.inferred;
}

-- `ON CONFLICT(id) DO UPDATE`: the row of the id, or a new one.
abbrev pub upsert_hold : Hold → List Hold → List Hold
upsert_hold h rows =
    if is_some (get hold_id_of h.id rows)
    then modify hold_id_of h.id (updated h) rows
    else rows ++ (h ∷ [])

unfoldable pub set_hold : Engine → Hold → Tables → Result StoreError Unit × Tables
set_hold e h s = autocommit e (λ t. ok (tt, record t { holds = upsert_hold h t.holds })) s

-- Whether the row that stands under the hold's id, if one does, is of its kind.
abbrev pub is_free_for : Hold → Option Hold → Bool
is_free_for h none = true
is_free_for h (some old) = old.kind == h.kind

unfoldable pub set_hold_if_not_other_kind : Engine → Hold → Tables → Result StoreError Bool × Tables
set_hold_if_not_other_kind e h s =
    autocommit e
      (λ t.
        if is_free_for h (get hold_id_of h.id t.holds)
        then ok (true, record t { holds = upsert_hold h t.holds })
        else ok (false, t))
      s

unfoldable pub read_hold : String → Tables → Option Hold
read_hold k s = get hold_id_of k s.holds

pub delete_hold : String → (Hold → Bool) → Tx Bool
delete_hold k p s =
    if meets p (get hold_id_of k s.holds)
    then ok (true, record s { holds = keep hold_id_of (λ h. not (h.id == k)) s.holds })
    else ok (false, s)

unfoldable pub clear_hold : Engine → String → Tables → Result StoreError Unit × Tables
unfolding delete_hold
clear_hold e k s = answered hold_not_found (autocommit e (delete_hold k (λ h. true)) s)

unfoldable pub clear_hold_if_kind :
    Engine → String → String → Tables → Result StoreError Bool × Tables
unfolding delete_hold
clear_hold_if_kind e k kind s = autocommit e (delete_hold k (λ h. h.kind == kind)) s

-- `COALESCE(MAX(position), -1) + 1`
unfoldable pub next_position : List Project → ℕ
next_position [] = 0
next_position (p ∷ rows) = let rest = next_position rows in max (p.position + 1) rest

abbrev pub positioned : List Project → Project → Project
positioned rows p = record p { position = next_position rows }

-- A name that is there fails the primary key, which `AddProject` reports as `ErrProjectExists`.
pub insert_project : Project → Tx Unit
insert_project p s =
    if is_some (get project_name_of p.name s.projects)
    then err project_exists
    else ok (tt, record s { projects = s.projects ++ (positioned s.projects p ∷ []) })

unfoldable pub add_project : Engine → Project → Tables → Result StoreError Unit × Tables
unfolding insert_project
add_project e p s = autocommit e (insert_project p) s

pub update_project : String → (Project → Project) → Tx Bool
update_project k f s =
    if is_some (get project_name_of k s.projects)
    then ok (true, record s { projects = modify project_name_of k f s.projects })
    else ok (false, s)

unfoldable pub set_project_upstream :
    Engine → String → String → Tables → Result StoreError Bool × Tables
unfolding update_project
set_project_upstream e k upstream s =
    autocommit e (update_project k (λ p. record p { upstream = upstream })) s

unfoldable pub set_project_url : Engine → String → String → Tables → Result StoreError Bool × Tables
unfolding update_project
set_project_url e k url s = autocommit e (update_project k (λ p. record p { url = url })) s

unfoldable pub remove_project : Engine → String → Tables → Result StoreError Bool × Tables
remove_project e k s =
    autocommit e
      (λ t.
        if is_some (get project_name_of k t.projects)
        then ok
            (true, record t { projects = keep project_name_of (λ p. not (p.name == k)) t.projects })
        else ok (false, t))
      s
