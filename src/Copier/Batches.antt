-- ===== src/Copier/Batches.antt =====
-- `_list_multi_pages` and `_batched_list`: the children of many folders by few questions to Drive.
use gdrive_turbo_copy.Prelude.{
  ℕ, zero, suc, String, Bool, not, ◌&&◌, Option, none, some, List, [], ◌∷◌, ◌++◌, ltb, length, any,
  is_set, if◌then◌else◌,
}
use gdrive_turbo_copy.Prelude.Int.{pos}
use gdrive_turbo_copy.Prelude.Dict.{Dict, lookup, insert}
use gdrive_turbo_copy.Prelude.Sets.{contains}
use gdrive_turbo_copy.Models.DriveFile.{FileReply, DriveFile, from_api}
use gdrive_turbo_copy.Models.Config.{CopyConfig}
use gdrive_turbo_copy.Models.Records.{is_nonempty}
use gdrive_turbo_copy.Retry.Errors.{quota_stopped}
use gdrive_turbo_copy.Retry.Loop.{Reply, reply, failed}
use gdrive_turbo_copy.Copier.Drive.{Drive, Page}
use gdrive_turbo_copy.Copier.Engine.{
  Engine, Outcome, done, raised, out_of_fuel, Action, pure, ◌>>=◌, ◌>>◌,
}
use gdrive_turbo_copy.Copier.Failure.{raise_if_fatal_quota}
use gdrive_turbo_copy.Copier.Listing.{list_children}

-- The children of folders by the folder's id.
abbrev pub Children : Type 0
Children = Dict (List DriveFile)

-- `d.get(id) or []`
abbrev pub children_of : String → Children → List DriveFile
children_of id d = elim (lookup id d) [ none ↦ [] | some files ↦ files ]

-- The file goes to every parent that is asked for.
unfoldable pub add_to_parents : List String → DriveFile → List String → Children → Children
add_to_parents group file [] out = out
add_to_parents group file (pid ∷ parents) out =
    add_to_parents group file parents
      (if contains pid group then insert pid (children_of pid out ++ (file ∷ [])) out else out)

abbrev pub parents_of : FileReply → List String
parents_of f = elim (f.parents) [ none ↦ [] | some parents ↦ parents ]

unfoldable pub add_files : List String → List FileReply → Children → Children
add_files group [] out = out
add_files group (f ∷ files) out =
    add_files group files (add_to_parents group (from_api f) (parents_of f) out)

-- `{fid: [] for fid in group}`
unfoldable pub no_children : List String → Children
no_children [] = []
no_children (fid ∷ group) = insert fid [] (no_children group)

-- The ids in groups of at most 50, in order.
unfoldable pub groups_from : ℕ → List String → List String → List (List String)
groups_from room group [] = if is_nonempty group then group ∷ [] else []
groups_from zero group (id ∷ ids) = group ∷ groups_from 49 (id ∷ []) ids
groups_from (suc room) group (id ∷ ids) = groups_from room (group ++ (id ∷ [])) ids

abbrev pub any_children : Children → Bool
any_children d = any (λ entry. is_nonempty entry.1) d

module _ (drive : Drive) (config : CopyConfig) (pages : ℕ) where
  abbrev pub Act : Type 0 → Type 0
  Act = Action drive.World

  unfoldable pub multi_answer :
      (Option String → Children → Act Children) → List String → Children → Reply Page → Act Children
  multi_answer rest group out (failed x) e = (raised x, e)
  multi_answer rest group out (reply (files, next)) e =
      if is_set next
      then rest next (add_files group files out) e
      else (done (add_files group files out), e)

  unfoldable pub multi_from : ℕ → List String → Option String → Children → Act Children
  multi_from zero group token out e = (out_of_fuel, e)
  multi_from (suc fuel) group token out e =
      let p = drive.list_children_multi group config.exclude_substrings token e.world in
      multi_answer (λ next now. multi_from fuel group next now) group out p.0
        (record e { world = p.1 })

  unfoldable pub list_multi_pages : List String → Act Children
  list_multi_pages group = multi_from pages group none (no_children group)

  -- The `try` around it: `none` is a batch that failed.
  unfoldable pub try_batch :
      Outcome Children × Engine drive.World → Outcome (Option Children) × Engine drive.World
  try_batch (done out, e) = (done (some out), e)
  try_batch (raised (quota_stopped reason), e) = (raised (quota_stopped reason), e)
  try_batch (raised exc, e) =
      (raise_if_fatal_quota drive config exc "fast-list listing" >> pure none) e
  try_batch (out_of_fuel, e) = (out_of_fuel, e)

  -- A folder without children in the batch is listed by itself.
  abbrev pub list_single : String → Children → Act Children
  list_single fid result = do
    kids ← list_children drive config fid fid (pos 0) (pos 0) pages
    pure (insert fid kids result)

  unfoldable pub fill : Children → List String → Children → Act Children
  fill got [] result = pure result
  fill got (fid ∷ group) result =
      (if is_nonempty (children_of fid got)
        then pure (insert fid (children_of fid got) result)
        else list_single fid result)
      >>= fill got group

  -- A batch that failed, or in which several folders have no child at all, is not believed.
  unfoldable pub use_batch : List String → Children → Option Children → Act Children
  use_batch group result none = fill [] group result
  use_batch group result (some batched) =
      if ltb 1 (length group) && not (any_children batched)
      then fill [] group result
      else fill batched group result

  unfoldable pub list_groups : List (List String) → Children → Act Children
  list_groups [] result e = (done result, e)
  list_groups (group ∷ groups) result e =
      if e.stop
      then (done result, e)
      else (((λ e'. try_batch (list_multi_pages group e')) >>= use_batch group result)
            >>= list_groups groups)
          e

  unfoldable pub batched_list : List String → Act Children
  batched_list ids = list_groups (groups_from 50 [] ids) []
