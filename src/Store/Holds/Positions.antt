-- ===== src/Store/Holds/Positions.antt =====
-- The registry's order. A project is listed by its position, so positions have to grow in the order in
-- which projects were added, whatever was removed or changed between.
use secondhand.Base.{
  ℕ, ◌≤◌, ◌<◌, String, ◌≡◌, refl, Bool, true, false, not, List, [], ◌∷◌, ◌++◌, Option, none, some,
  arith, if◌then◌else◌, ◌==◌, string_eq, Bool-cases, inl, inr, Result, ok, err,
}
use secondhand.Store.Types.{Project}
use secondhand.Store.Table.{
  get, modify, keep, IsKeyed, IsKeyed-insert, IsKeyed-modify, IsKeyed-keep,
}
use secondhand.Store.Tables.{
  Tables, project_name_of, StoreError, project_exists, Engine, is_some, autocommit,
}
use secondhand.Store.Statements.{autocommit-keeps, settled}
use secondhand.Store.Holds.{
  next_position, positioned, insert_project, add_project, update_project, set_project_upstream,
  set_project_url, remove_project,
}

abbrev Above : ℕ → List Project → Type 0
Above n [] = Unit
Above n (p ∷ rows) = (n < p.position) × Above n rows

-- Positions grow along the table.
abbrev pub IsOrdered : List Project → Type 0
IsOrdered [] = Unit
IsOrdered (p ∷ rows) = Above p.position rows × IsOrdered rows

pub record IsRegistry (s : Tables) : Type 0 where
  pub keyed : IsKeyed project_name_of s.projects
  pub ordered : IsOrdered s.projects

Above-append :
    (n : ℕ) (x : Project) (rows : List Project)
    → n < x.position
    → Above n rows
    → Above n (rows ++ (x ∷ []))
Above-append n x [] less h = (less, tt)
Above-append n x (p ∷ rows) less h = (h.0, Above-append n x rows less h.1)

IsOrdered-append :
    (x : Project) (rows : List Project)
    → next_position rows ≤ x.position
    → IsOrdered rows
    → IsOrdered (rows ++ (x ∷ []))
unfolding next_position
IsOrdered-append x [] less h = (tt, tt)
IsOrdered-append x (p ∷ rows) less h =
    (Above-append p.position x rows (ground arith) h.0, IsOrdered-append x rows (ground arith) h.1)

module _ (k : String) (f : Project → Project)
    (same : (p : Project) → (f p).position ≡ p.position) where
  Above-modify :
      (n : ℕ) (rows : List Project) → Above n rows → Above n (modify project_name_of k f rows)
  unfolding modify
  Above-modify n [] h = tt
  Above-modify n (p ∷ rows) h = elim (Bool-cases (p.name == k)) [
    | inl e ↦ rw e (rw (same p) h.0, h.1)
    | inr e ↦ rw e (h.0, Above-modify n rows h.1)
  ]

  IsOrdered-modify :
      (rows : List Project) → IsOrdered rows → IsOrdered (modify project_name_of k f rows)
  unfolding modify
  IsOrdered-modify [] h = tt
  IsOrdered-modify (p ∷ rows) h = elim (Bool-cases (p.name == k)) [
    | inl e ↦ rw e (rw (same p) h.0, h.1)
    | inr e ↦ rw e (Above-modify p.position rows h.0, IsOrdered-modify rows h.1)
  ]

module _ (q : Project → Bool) where
  Above-keep : (n : ℕ) (rows : List Project) → Above n rows → Above n (keep project_name_of q rows)
  unfolding keep
  Above-keep n [] h = tt
  Above-keep n (p ∷ rows) h = elim (Bool-cases (q p)) [
    | inl e ↦ rw e (h.0, Above-keep n rows h.1)
    | inr e ↦ rw e (Above-keep n rows h.1)
  ]

  IsOrdered-keep : (rows : List Project) → IsOrdered rows → IsOrdered (keep project_name_of q rows)
  unfolding keep
  IsOrdered-keep [] h = tt
  IsOrdered-keep (p ∷ rows) h = elim (Bool-cases (q p)) [
    | inl e ↦ rw e (Above-keep p.position rows h.0, IsOrdered-keep rows h.1)
    | inr e ↦ rw e (IsOrdered-keep rows h.1)
  ]

-- A call that changes the registry.
pub data RegistryCommand : Type 0 where
  add_with : (p : Project) → RegistryCommand
  set_upstream_with : (k upstream : String) → RegistryCommand
  set_url_with : (k url : String) → RegistryCommand
  remove_with : (k : String) → RegistryCommand

unfoldable pub register : Engine → RegistryCommand → Tables → Tables
register e (add_with p) s = (add_project e p s).1
register e (set_upstream_with k upstream) s = (set_project_upstream e k upstream s).1
register e (set_url_with k url) s = (set_project_url e k url s).1
register e (remove_with k) s = (remove_project e k s).1

unfoldable pub register_all : List (Engine × RegistryCommand) → Tables → Tables
unfolding register
register_all [] s = s
register_all ((e, x) ∷ calls) s = register_all calls (register e x s)

choosing :
    {A : Type 0} (P : Tables → Type 0) (b : Bool) (x y : Result StoreError (A × Tables)) (a : A)
    (s' : Tables)
    → (x ≡ ok (a, s') → P s')
    → (y ≡ ok (a, s') → P s')
    → (if b then x else y) ≡ ok (a, s')
    → P s'
choosing P true x y a s' f g h = f h
choosing P false x y a s' f g h = g h

no_project : (o : Option Project) → is_some o ≡ false → o ≡ none
no_project none h = refl
no_project (some p) h = cc

added-IsRegistry :
    (p : Project) (s : Tables) (u : Unit) (s' : Tables) (b : Bool)
    → is_some (get project_name_of p.name s.projects) ≡ b
    → IsRegistry s
    → ◌≡◌ {A = Result StoreError (Unit × Tables)}
        (if b
          then err project_exists
          else ok (tt, record s { projects = s.projects ++ (positioned s.projects p ∷ []) }))
        (ok (u, s'))
    → IsRegistry s'
added-IsRegistry p s u s' true there c h = cc
added-IsRegistry p s u s' false there c h =
    settled IsRegistry tt u _ s'
      (record {
        keyed =
            IsKeyed-insert project_name_of (positioned s.projects p) s.projects c.keyed
              (no_project (get project_name_of p.name s.projects) there);
        ordered = IsOrdered-append (positioned s.projects p) s.projects (omega arith) c.ordered;
      })
      h

add_project-IsRegistry :
    (e : Engine) (p : Project) (s : Tables) → IsRegistry s → IsRegistry (add_project e p s).1
unfolding add_project
add_project-IsRegistry e p s c =
    autocommit-keeps IsRegistry e (insert_project p) s c
      λ u s' h. added-IsRegistry p s u s' (is_some (get project_name_of p.name s.projects)) refl c h

updated-IsRegistry :
    (e : Engine) (k : String) (f : Project → Project) (s : Tables)
    → ((p : Project) → (f p).position ≡ p.position)
    → ((p : Project) → (f p).name ≡ p.name)
    → IsRegistry s
    → IsRegistry (autocommit e (update_project k f) s).1
unfolding set_project_url
updated-IsRegistry e k f s place name c =
    autocommit-keeps IsRegistry e (update_project k f) s c λ b s' h.
      choosing IsRegistry (is_some (get project_name_of k s.projects)) _ _ b s'
        (settled IsRegistry true b _ s' (record {
          keyed = IsKeyed-modify project_name_of k f s.projects name c.keyed;
          ordered = IsOrdered-modify k f place s.projects c.ordered;
        }))
        (settled IsRegistry false b s s' c) h

remove_project-IsRegistry :
    (e : Engine) (k : String) (s : Tables) → IsRegistry s → IsRegistry (remove_project e k s).1
unfolding remove_project
remove_project-IsRegistry e k s c = autocommit-keeps IsRegistry e _ s c λ b s' h.
    choosing IsRegistry (is_some (get project_name_of k s.projects)) _ _ b s'
      (settled IsRegistry true b _ s' (record {
        keyed = IsKeyed-keep project_name_of (λ p. not (p.name == k)) s.projects c.keyed;
        ordered = IsOrdered-keep (λ p. not (p.name == k)) s.projects c.ordered;
      }))
      (settled IsRegistry false b s s' c) h

register-IsRegistry :
    (e : Engine) (x : RegistryCommand) (s : Tables) → IsRegistry s → IsRegistry (register e x s)
unfolding register set_project_upstream set_project_url
register-IsRegistry e (add_with p) s c = add_project-IsRegistry e p s c
register-IsRegistry e (set_upstream_with k upstream) s c =
    updated-IsRegistry e k _ s (λ p. refl) (λ p. refl) c
register-IsRegistry e (set_url_with k url) s c =
    updated-IsRegistry e k _ s (λ p. refl) (λ p. refl) c
register-IsRegistry e (remove_with k) s c = remove_project-IsRegistry e k s c

-- From a registry with unique names and positions that grow in the order of addition, any calls lead
-- to such a registry again, however the engine answers: removing or changing a project never lets a
-- later one be listed before an earlier one.
pub register_all-IsRegistry :
    (calls : List (Engine × RegistryCommand)) (s : Tables)
    → IsRegistry s
    → IsRegistry (register_all calls s)
unfolding register_all
register_all-IsRegistry [] s c = c
register_all-IsRegistry ((e, x) ∷ calls) s c =
    register_all-IsRegistry calls (register e x s) (register-IsRegistry e x s c)
