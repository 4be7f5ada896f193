-- ===== src/Registry/States.antt =====
-- The lifecycle of a client as a diagram: the seven states that the schema names, and the edges
-- between them (`legalTransitions` of internal/registrydb/fake.go, and the state names that
-- internal/lifecycle/lifecycle.go and routes/api.go use).
use eudi_api_registration.Base.{String, ◌≡◌, refl, sym, ◌⊎◌, ◌↔◌, inl, inr, arith, eq_iff}

pub data State : Type 0 where
  draft evidence_submitted filed_with_registrar registered active suspended offboarded : State

abbrev pub name : State → String
name draft = "draft"
name evidence_submitted = "evidence_submitted"
name filed_with_registrar = "filed_with_registrar"
name registered = "registered"
name active = "active"
name suspended = "suspended"
name offboarded = "offboarded"

pub data Edge : State → State → Type 0 where
  submit : Edge draft evidence_submitted
  file : Edge evidence_submitted filed_with_registrar
  confirm : Edge filed_with_registrar registered
  activate : Edge registered active
  suspend : Edge active suspended
  reactivate : Edge suspended active
  offboard_suspended : Edge suspended offboarded
  offboard_active : Edge active offboarded

-- Two status texts are joined by an edge of the diagram.
pub record IsEdge (from to : String) : Type 0 where
  pub source : State
  pub target : State
  pub from_source : from ≡ name source
  pub to_target : to ≡ name target
  pub edge : Edge source target

-- Only the two predecessors lead to "active".
source_of_active :
    (s t : State) → Edge s t → name t ≡ "active" → (name s ≡ "registered") ⊎ (name s ≡ "suspended")
source_of_active s t activate h = inl refl
source_of_active s t reactivate h = inr refl
source_of_active s t submit h = absurd (ground (arith, eq_iff "evidence_submitted" "active"))
source_of_active s t file h = absurd (ground (arith, eq_iff "filed_with_registrar" "active"))
source_of_active s t confirm h = absurd (ground (arith, eq_iff "registered" "active"))
source_of_active s t suspend h = absurd (ground (arith, eq_iff "suspended" "active"))
source_of_active s t offboard_suspended h = absurd (ground (arith, eq_iff "offboarded" "active"))
source_of_active s t offboard_active h = absurd (ground (arith, eq_iff "offboarded" "active"))

pub IsEdge-active_iff :
    (from : String) → IsEdge from "active" ↔ ((from ≡ "registered") ⊎ (from ≡ "suspended"))
IsEdge-active_iff from = (to, of)
  where
    to : IsEdge from "active" → (from ≡ "registered") ⊎ (from ≡ "suspended")
    to e = rw e.from_source (source_of_active e.source e.target e.edge (sym e.to_target))

    of : (from ≡ "registered") ⊎ (from ≡ "suspended") → IsEdge from "active"
    of (inl h) = record {
      source = registered;
      target = active;
      from_source = h;
      to_target = refl;
      edge = activate;
    }
    of (inr h) = record {
      source = suspended;
      target = active;
      from_source = h;
      to_target = refl;
      edge = reactivate;
    }

-- Only one predecessor leads to "suspended".
source_of_suspended : (s t : State) → Edge s t → name t ≡ "suspended" → name s ≡ "active"
source_of_suspended s t suspend h = refl
source_of_suspended s t submit h = absurd (ground (arith, eq_iff "evidence_submitted" "suspended"))
source_of_suspended s t file h = absurd (ground (arith, eq_iff "filed_with_registrar" "suspended"))
source_of_suspended s t confirm h = absurd (ground (arith, eq_iff "registered" "suspended"))
source_of_suspended s t activate h = absurd (ground (arith, eq_iff "active" "suspended"))
source_of_suspended s t reactivate h = absurd (ground (arith, eq_iff "active" "suspended"))
source_of_suspended s t offboard_suspended h =
    absurd (ground (arith, eq_iff "offboarded" "suspended"))
source_of_suspended s t offboard_active h = absurd (ground (arith, eq_iff "offboarded" "suspended"))

pub IsEdge-suspended : (from : String) → IsEdge from "suspended" → from ≡ "active"
IsEdge-suspended from e =
    rw e.from_source (source_of_suspended e.source e.target e.edge (sym e.to_target))
