-- ===== src/QualityGates/Matrix.antt =====
-- `build_traceability_matrix`.
use softos_sdd_orchestrator.Prelude.{String, Option, none, some, List, [], ◌∷◌, ◌==◌, if◌then◌else◌}
use softos_sdd_orchestrator.Prelude.Strip.{strip}
use softos_sdd_orchestrator.Prelude.Text.{or_default}
use softos_sdd_orchestrator.Prelude.Dict.{Dict, lookup}
use softos_sdd_orchestrator.Prelude.Json.{Json, obj, fields, get}
use softos_sdd_orchestrator.QualityGates.Risk.{Slice, PlanPayload}
use softos_sdd_orchestrator.QualityGates.Gates.{StageRecords}

pub record Row : Type 0 where
  pub spec : String
  pub slice : String
  pub commit : Json
  pub test : List String
  pub promote : String
  pub verify : String

-- str(stage_records.get(stage, {}).get("status") or "unknown")
abbrev pub release_status : StageRecords → String → String
release_status records stage = elim (lookup stage records) [
  | none ↦ "unknown"
  | some status ↦ or_default status "unknown"
]

-- The entries of a value, none when it is no object.
abbrev pub object_of : Json → Dict Json
object_of (obj fs) = fields fs
object_of _ = []

unfoldable pub row_of : String → Json → StageRecords → String → Slice → Row
unfolding lookup get
row_of feature_slug slice_results records name slice = record {
  spec = feature_slug;
  slice = name;
  commit = get "commit_ref" (object_of (get name (object_of slice_results)));
  test = slice.linked_tests;
  promote = release_status records "release_promote";
  verify = release_status records "release_verify";
}

unfoldable pub rows_of : String → Json → StageRecords → List (Option Slice) → List Row
unfolding row_of strip
rows_of feature_slug slice_results records [] = []
rows_of feature_slug slice_results records (none ∷ slices) =
    rows_of feature_slug slice_results records slices
rows_of feature_slug slice_results records (some slice ∷ slices) =
    let rest = rows_of feature_slug slice_results records slices in
    if strip slice.name == ""
    then rest
    else row_of feature_slug slice_results records (strip slice.name) slice ∷ rest

unfoldable pub build_traceability_matrix :
    String → PlanPayload → Dict Json → StageRecords → List Row
unfolding rows_of get
build_traceability_matrix feature_slug none state records = []
build_traceability_matrix feature_slug (some slices) state records =
    rows_of feature_slug (get "slice_results" state) records slices
