-- ===== src/Engine/Identity.antt =====
-- internal/engine/identity.go: which containers a lab and a node have.
pub mod Single
use labcontainers.Prelude.{String, Bool, true, false, ◌&&◌, List, [], ◌∷◌, ◌==◌, if◌then◌else◌}
use labcontainers.Prelude.FilePath.{◌⧺◌}
use labcontainers.Text.{fields, lines, trim_space}
use labcontainers.Actions.{pure, fail, require, ◌>>=◌}
use labcontainers.Engine.Host.{Cmd, refused, checked}

abbrev is_empty : List String → Bool
is_empty [] = true
is_empty (_ ∷ _) = false

unfoldable pub check_lab_name_available : String → Cmd (Unit {0})
unfolding checked ◌>>=◌
check_lab_name_available lab = do
  r ← checked (
      "docker"
      ∷ "ps"
      ∷ "--all"
      ∷ "--no-trunc"
      ∷ "--filter"
      ∷ ("label=containerlab=" ⧺ lab)
      ∷ "--format"
      ∷ "{{.ID}}"
      ∷ [])
  require (is_empty (fields r.stdout)) refused

-- Two fields, of which the second is the session.
abbrev pub is_owned : String → List String → Bool
is_owned id (_ ∷ session ∷ []) = session == id
is_owned id _ = false

-- A line of the listing; an empty one is passed over.
abbrev pub line_fits : String → String → Bool
line_fits id line = if line == "" then true else is_owned id (fields line)

unfoldable pub all_fit : String → List String → Bool
all_fit id [] = true
all_fit id (l ∷ ls) = line_fits id l && all_fit id ls

unfoldable pub check_session_ownership : String → String → Cmd (Unit {0})
unfolding checked ◌>>=◌
check_session_ownership lab id = do
  r ← checked (
      "docker"
      ∷ "ps"
      ∷ "--all"
      ∷ "--no-trunc"
      ∷ "--filter"
      ∷ ("label=containerlab=" ⧺ lab)
      ∷ "--format"
      ∷ "{{.ID}} {{.Label \"labcontainers.appmana.com/session\"}}"
      ∷ [])
  require (all_fit id (lines (trim_space r.stdout))) refused

-- Exactly one value.
unfoldable pub only : List String → Cmd String
unfolding pure fail
only (v ∷ []) = pure v
only _ = fail refused

-- The running containers of a node.
abbrev pub list_running : String → String → String → List String
list_running lab node format =
    "docker"
    ∷ "ps"
    ∷ "--no-trunc"
    ∷ "--filter"
    ∷ ("label=containerlab=" ⧺ lab)
    ∷ "--filter"
    ∷ ("label=clab-node-name=" ⧺ node)
    ∷ "--filter"
    ∷ "label=labcontainers.appmana.com/managed=true"
    ∷ "--format"
    ∷ format
    ∷ []

unfoldable pub container_identity : String → String → String → Cmd String
unfolding checked ◌>>=◌ only
container_identity lab node format = do
  r ← checked (list_running lab node format)
  only (fields r.stdout)

abbrev pub container_name : String → String → Cmd String
container_name lab node = container_identity lab node "{{.Names}}"

abbrev pub container_id : String → String → Cmd String
container_id lab node = container_identity lab node "{{.ID}}"
