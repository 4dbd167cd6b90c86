-- ===== src/Store/Holds/Kinds.antt =====
-- What setting and clearing a hold leaves under every id. The watcher sets and clears the holds of
-- its own kind only, so that an operator's hold is never lost to it.
use secondhand.Base.{
  String, ◌≡◌, ◌∙◌, ap, refl, not, ◌&&◌, List, [], ◌∷◌, ◌++◌, Option, none, some, arith,
  if◌then◌else◌, ◌==◌, string_eq, eq_iff, Bool-cases, inl, inr, ok,
}
use secondhand.Store.Types.{Hold}
use secondhand.Store.Table.{
  get, modify, kept_if, IsKeyed, get_key, get-modify, get-insert, get-keep,
}
use secondhand.Store.Tables.{Tables, hold_id_of, Engine, fine, autocommit, meets, is_some}
use secondhand.Store.Holds.{
  updated, upsert_hold, set_hold, is_free_for, set_hold_if_not_other_kind, read_hold,
  clear_hold_if_kind,
}

updated-same :
    (h : Hold) (rows : List Hold) (old : Hold)
    → get hold_id_of h.id rows ≡ some old
    → updated h old ≡ h
updated-same h rows old there =
    ap (λ (k : String). record h { id = k }) (get_key hold_id_of h.id rows there)

inserting-here :
    (h : Hold) (j : String) (rows : List Hold) (o : Option Hold)
    → get hold_id_of h.id rows ≡ o
    → get hold_id_of j
        (if is_some o then modify hold_id_of h.id (updated h) rows else rows ++ (h ∷ []))
      ≡ (if h.id == j then some h else get hold_id_of j rows)
inserting-here h j rows none there =
    ground (arith, get-insert hold_id_of j h rows, there, eq_iff h.id j)
inserting-here h j rows (some old) there =
    let found = get-modify hold_id_of h.id j (updated h) rows (λ r. refl) in
    ground (arith, found, there, eq_iff h.id j, updated-same h rows old there)

get-upsert_hold :
    (h : Hold) (j : String) (rows : List Hold)
    → get hold_id_of j (upsert_hold h rows) ≡ (if h.id == j then some h else get hold_id_of j rows)
get-upsert_hold h j rows = inserting-here h j rows (get hold_id_of h.id rows) refl

-- After `SetHold`, where the engine does not fail, the id has exactly the hold that was set, and every
-- other id what it had.
set_hold_lem :
    (e : Engine) (h : Hold) (s : Tables) (j : String)
    → e.exec ≡ fine
    → ((set_hold e h s).0 ≡ ok tt)
      × (read_hold j (set_hold e h s).1 ≡ (if h.id == j then some h else read_hold j s))
unfolding set_hold read_hold autocommit
set_hold_lem e h s j works = rw works (refl, get-upsert_hold h j s.holds)

-- `SetHoldIfNotOtherKind`, where the engine does not fail, answers whether the id is free or has a
-- hold of the same kind; then the id has the new hold, and otherwise what it had. No other id is
-- touched on either branch.
pub set_hold_if_not_other_kind_lem :
    (e : Engine) (h : Hold) (s : Tables) (j : String)
    → e.exec ≡ fine
    → ((set_hold_if_not_other_kind e h s).0 ≡ ok (is_free_for h (read_hold h.id s)))
      × (read_hold j (set_hold_if_not_other_kind e h s).1
          ≡ (if is_free_for h (read_hold h.id s) && h.id == j then some h else read_hold j s))
unfolding set_hold_if_not_other_kind read_hold autocommit
set_hold_if_not_other_kind_lem e h s j works =
    elim (Bool-cases (is_free_for h (get hold_id_of h.id s.holds))) [
      | inl free ↦ rw (works, free) (refl, get-upsert_hold h j s.holds)
      | inr taken ↦ rw (works, taken) (refl, refl)
    ]

kept-others :
    (k j : String) (o : Option Hold)
    → ((h : Hold) → o ≡ some h → h.id ≡ j)
    → kept_if (λ h. not (h.id == k)) o ≡ (if k == j then none else o)
kept-others k j none named = ground arith
kept-others k j (some h) named = ground (arith, named h refl, eq_iff h.id k, eq_iff k j)

-- `ClearHoldIfKind`, where ids are unique and the engine does not fail, answers whether the id had a
-- hold of that kind; then the id has none, and otherwise what it had. No other id is touched on
-- either branch.
pub clear_hold_if_kind_lem :
    (e : Engine) (k kind : String) (s : Tables) (j : String)
    → IsKeyed hold_id_of s.holds
    → e.exec ≡ fine
    → ((clear_hold_if_kind e k kind s).0 ≡ ok (meets (λ h. h.kind == kind) (read_hold k s)))
      × (read_hold j (clear_hold_if_kind e k kind s).1
          ≡ (if meets (λ h. h.kind == kind) (read_hold k s) && k == j then none else read_hold j s))
unfolding clear_hold_if_kind read_hold autocommit
clear_hold_if_kind_lem e k kind s j keyed works =
    elim (Bool-cases (meets (λ h. h.kind == kind) (get hold_id_of k s.holds))) [
      | inl cleared ↦
          rw (works, cleared)
            (
              refl,
              get-keep hold_id_of j (λ h. not (h.id == k)) s.holds keyed
                  ∙ kept-others k j (get hold_id_of j s.holds) (λ h. get_key hold_id_of j s.holds),
            )
      | inr kept ↦ rw (works, kept) (refl, refl)
    ]
