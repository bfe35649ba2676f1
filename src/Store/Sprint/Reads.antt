-- ===== src/Store/Sprint/Reads.antt =====
-- `ListSprints` and `GetSprint` of sprint.go. `name_before` is the order of names in the collation of the
-- database.
use Prim.Native.String.{String}
use velvet.Common.{
  ℕ, ◌≡◌, refl, ◌∙◌, Option, none, some, Bool, true, false, ◌&&◌, ◌||◌, List, [], ◌∷◌, ◌==◌, any,
  find, select, if◌then◌else◌, Bool-cases, inl, inr,
}
use velvet.Common.Text.{lex_ltb}
use velvet.Store.Db.{Db, Sprint}
use velvet.Store.Tx.{Tx, query_row}
use velvet.Store.Sprint.{is_sprint}

unfoldable pub get_sprint : ℕ → ℕ → Tx Sprint
get_sprint workspace_id id = query_row (λ db. find (is_sprint workspace_id id) db.sprints)

-- `none` is the zero uuid of `SprintFilter`.
abbrev in_scope : ℕ → Option ℕ → Sprint → Bool
in_scope workspace_id none s = s.workspace_id == workspace_id
in_scope workspace_id (some project_id) s =
    s.workspace_id == workspace_id && s.project_id == project_id

module _ (name_before : String → String → Bool) where
  -- ORDER BY starts_on DESC, name
  abbrev listed_before : Sprint → Sprint → Bool
  listed_before s t =
      if lex_ltb t.starts_on s.starts_on
      then true
      else if lex_ltb s.starts_on t.starts_on
      then false
      else name_before s.name t.name

  unfoldable pub insert_sprint : Sprint → List Sprint → List Sprint
  insert_sprint s [] = s ∷ []
  insert_sprint s (t ∷ ts) =
      let rest = insert_sprint s ts in if listed_before t s then t ∷ rest else s ∷ t ∷ ts

  unfoldable pub sort_sprints : List Sprint → List Sprint
  sort_sprints [] = []
  sort_sprints (s ∷ ss) = insert_sprint s (sort_sprints ss)

  unfoldable pub list_sprints : ℕ → Option ℕ → Db → List Sprint
  list_sprints workspace_id project_id db =
      sort_sprints (select (in_scope workspace_id project_id) db.sprints)

  any-insert_sprint :
      (p : Sprint → Bool) (s : Sprint) (ts : List Sprint)
      → any p (insert_sprint s ts) ≡ (p s || any p ts)
  unfolding insert_sprint
  any-insert_sprint p s [] = refl
  any-insert_sprint p s (t ∷ ts) = elim (Bool-cases (listed_before t s)) [
    | inl e ↦ let rest = any-insert_sprint p s ts in rw (e, rest) (swap (p t) (p s) (any p ts))
    | inr e ↦ rw e refl
  ]
    where
      swap : (a b c : Bool) → (a || (b || c)) ≡ (b || (a || c))
      swap true true c = refl
      swap true false c = refl
      swap false b c = refl

  any-sort_sprints : (p : Sprint → Bool) (ss : List Sprint) → any p (sort_sprints ss) ≡ any p ss
  unfolding sort_sprints
  any-sort_sprints p [] = refl
  any-sort_sprints p (s ∷ ss) =
      let rest = any-sort_sprints p ss in any-insert_sprint p s (sort_sprints ss) ∙ rw rest refl

  -- `list_sprints` lists a sprint with a property exactly if the workspace, and the project if one is
  -- given, has a sprint with it.
  any-list_sprints :
      (w : ℕ) (project_id : Option ℕ) (db : Db) (p : Sprint → Bool)
      → any p (list_sprints w project_id db) ≡ any (λ s. in_scope w project_id s && p s) db.sprints
  unfolding list_sprints
  any-list_sprints w project_id db p = any-sort_sprints p _ ∙ any-within db.sprints
    where
      any-within :
          (ss : List Sprint)
          → any p (select (in_scope w project_id) ss) ≡ any (λ s. in_scope w project_id s && p s) ss
      any-within [] = refl
      any-within (s ∷ ss) = elim (Bool-cases (in_scope w project_id s)) [
        | inl e ↦ rw e (rw (any-within ss) refl)
        | inr e ↦ rw e (any-within ss)
      ]
