-- ===== src/Repository/Artifacts.antt =====
-- The methods of services/api/repository.py on artifacts.
use smarttest_platform.Base.{
  List, Bool, not, ◌&&◌, Option, none, some, pure, raise, raise_if, gets, modify, or_raise, ◌>>=◌,
  ◌>>◌, nat_eq, keep, ◌==◌, if◌then◌else◌,
}
use smarttest_platform.Base.Exec.{artifact_conflict, artifact_not_found}
use smarttest_platform.Base.Dict.{lookup, insert, values}
use smarttest_platform.Base.Sort.{sorted, pair_leb}
use smarttest_platform.Base.Text.{text_beq}
use smarttest_platform.Protocol.{Uuid}
use smarttest_platform.Domain.{ArtifactRecord}
use smarttest_platform.Repository.State.{Method, get_locked, get_attempt_locked}

-- `==` of the frozen dataclass: field by field
unfoldable pub artifact_beq : ArtifactRecord → ArtifactRecord → Bool
artifact_beq a b =
    (a.id == b.id)
    && ((a.run_id == b.run_id)
        && ((a.attempt_id == b.attempt_id)
            && (text_beq a.kind b.kind
                && (text_beq a.name b.name
                    && (text_beq a.content_type b.content_type
                        && ((a.size_bytes == b.size_bytes)
                            && (text_beq a.storage_key b.storage_key
                                && (a.created_at == b.created_at))))))))

-- `existing = self._artifacts.get(artifact_id)` and what follows it
abbrev pub store_artifact : ArtifactRecord → Option ArtifactRecord → Method ArtifactRecord
store_artifact added (some existing) =
    if artifact_beq existing added then pure existing else raise artifact_conflict
store_artifact added none = do
  modify (λ s. record s { artifacts = insert added.id added s.artifacts })
  pure added

-- The arguments of the method are the fields of the record that it builds first.
unfoldable pub create_artifact : ArtifactRecord → Method ArtifactRecord
unfolding get_locked get_attempt_locked
create_artifact added = do
  attempt ← get_attempt_locked added.attempt_id
  raise_if (not (attempt.run_id == added.run_id)) artifact_conflict
  get_locked added.run_id >>= λ run. pure tt
  existing ← gets (λ s. lookup added.id s.artifacts)
  store_artifact added existing

unfoldable pub get_artifact : Uuid → Method ArtifactRecord
get_artifact artifact_id s = or_raise (lookup artifact_id s.artifacts) artifact_not_found s

unfoldable pub list_artifacts : Uuid → Method (List ArtifactRecord)
unfolding get_locked
list_artifacts run_id = do
  get_locked run_id >>= λ run. pure tt
  records ← gets (λ s. keep (λ item. item.run_id == run_id) (values s.artifacts))
  pure (sorted (λ a b. pair_leb a.created_at a.id b.created_at b.id) records)
