-- ===== src/Copier/Resuming/Laws.antt =====
-- What the engine knows once the log is merged.
use gdrive_turbo_copy.Prelude.{◌≤◌, ◌≡◌, refl, String, ◌||◌, [], ◌∷◌, arith, if◌then◌else◌}
use gdrive_turbo_copy.Prelude.Dict.{
  Dict, lookup, has_key, set_default, lookup-set_default, lookup-nil, lookup-cons,
}
use gdrive_turbo_copy.Prelude.Sets.{contains, contains-union}
use gdrive_turbo_copy.Models.Records.{ResumeState}
use gdrive_turbo_copy.Copier.Engine.{Engine}
use gdrive_turbo_copy.Copier.Resuming.{merge_map, merge_resume}

lookup-merge_map :
    (k : String) (own loaded : Dict String)
    → lookup k (merge_map own loaded) ≡ (if has_key k own then lookup k own else lookup k loaded)
unfolding merge_map
lookup-merge_map k own [] = ground (arith, lookup-nil {V = String} k)
lookup-merge_map k own ((src, dst) ∷ loaded) = ground (
  arith,
  lookup-merge_map k (set_default src dst own) loaded,
  lookup-set_default k src dst own,
  lookup-cons k src dst loaded,
)

-- After the merge the engine knows every copied file and every completed folder of either side, a
-- folder of the run itself goes before one of the log, the bytes are no fewer than on either side,
-- and the failed items of the log are those of earlier runs in the result, while those in the state
-- stay this run's alone.
pub merge_resume_lem :
    {W : Type 0} (loaded : ResumeState) (e : Engine W)
    → let own = e.resume_state in
      let merged = (merge_resume loaded e).resume_state in
      ((x : String)
        → contains x merged.copied_ids
          ≡ (contains x own.copied_ids || contains x loaded.copied_ids))
      × ((x : String)
          → contains x merged.completed_folders
            ≡ (contains x own.completed_folders || contains x loaded.completed_folders))
      × ((k : String)
          → lookup k merged.folder_map ≡ (
              if has_key k own.folder_map
              then lookup k own.folder_map
              else lookup k loaded.folder_map))
      × (own.copied_bytes ≤ merged.copied_bytes)
      × (loaded.copied_bytes ≤ merged.copied_bytes)
      × ((merge_resume loaded e).result.previous_failed_items ≡ loaded.failed_items)
      × (merged.failed_items ≡ own.failed_items)
unfolding merge_resume
merge_resume_lem loaded e = (
  λ x. contains-union x e.resume_state.copied_ids loaded.copied_ids,
  λ x. contains-union x e.resume_state.completed_folders loaded.completed_folders,
  λ k. lookup-merge_map k e.resume_state.folder_map loaded.folder_map,
  omega arith,
  omega arith,
  refl,
  refl,
)
