-- ===== src/Copier/Moves/Batches.antt =====
-- The moves of the batched listings.
use gdrive_turbo_copy.Prelude.{
  ℕ, zero, suc, String, not, ◌&&◌, Option, none, some, List, [], ◌∷◌, ltb, length, is_set,
}
use gdrive_turbo_copy.Prelude.Int.{pos}
use gdrive_turbo_copy.Models.Config.{CopyConfig}
use gdrive_turbo_copy.Models.Records.{is_nonempty}
use gdrive_turbo_copy.Retry.Errors.{Exc, quota_stopped, runtime_error, value_error, http}
use gdrive_turbo_copy.Retry.Loop.{Reply, reply, failed}
use gdrive_turbo_copy.Copier.Drive.{Drive, Page}
use gdrive_turbo_copy.Copier.Engine.{Engine, Outcome, done, raised, out_of_fuel, Action, pure, ◌>>◌}
use gdrive_turbo_copy.Copier.Book.Frame.{Books, books}
use gdrive_turbo_copy.Copier.Batches.{
  Children, children_of, any_children, add_files, multi_answer, multi_from, list_multi_pages,
  try_batch, fill, use_batch, list_groups, groups_from, batched_list,
}
use gdrive_turbo_copy.Copier.Moves.{
  Moves, rests, Moves-trans, Moves-if, Moving, Moving-pure, Moving-if, Moving-bind, Moving-then,
  Moving-test,
}
use gdrive_turbo_copy.Copier.Failure.{raise_if_fatal_quota}
use gdrive_turbo_copy.Copier.Moves.Calls.{Moving-raise_if_fatal_quota, Moving-list_children}

module _ (drive : Drive) (config : CopyConfig) (pages : ℕ) where
  abbrev Mv : {A : Type 0} → Action drive.World A → Type 0
  Mv = Moving drive config

  Moving-multi_answer :
      (rest : Option String → Children → Action drive.World Children) (group : List String)
      (out : Children) (answer : Reply Page)
      → ((next : Option String) (now : Children) → Mv (rest next now))
      → Mv (multi_answer drive config pages rest group out answer)
  unfolding multi_answer
  Moving-multi_answer rest group out (failed x) k = record { at = λ e. rests }
  Moving-multi_answer rest group out (reply (files, next)) k = record {
    at = λ e.
        let now = add_files group files out in
        Moves-if drive config (books e) (is_set next) (rest next now e) (done now, e)
          ((k next now).at e) rests;
  }

  Moving-multi_from :
      (fuel : ℕ) (group : List String) (token : Option String) (out : Children)
      → Mv (multi_from drive config pages fuel group token out)
  unfolding multi_from
  Moving-multi_from zero group token out = record { at = λ e. rests }
  Moving-multi_from (suc fuel) group token out = record {
    at = λ e.
        let p = drive.list_children_multi group config.exclude_substrings token e.world in
        (Moving-multi_answer _ group out p.0 (λ next now. Moving-multi_from fuel group next now)).at
          (record e { world = p.1 });
  }

  batch_failed-Moves :
      (b : Books) (exc : Exc) (e : Engine drive.World)
      → Moves drive config b (books e)
      → Moves drive config b (
          books
            ((raise_if_fatal_quota drive config exc "fast-list listing"
                >> pure {A = Option Children} none)
              e).1)
  batch_failed-Moves b exc e m = Moves-trans drive config m (
      (Moving-then drive config _ _ (Moving-raise_if_fatal_quota drive config exc _)
          (Moving-pure drive config none)).at
        e)

  try_batch-Moves :
      (b : Books) (out : Outcome Children × Engine drive.World)
      → Moves drive config b (books out.1)
      → Moves drive config b (books (try_batch drive config pages out).1)
  unfolding try_batch
  try_batch-Moves b (done got, e) m = m
  try_batch-Moves b (raised (quota_stopped reason), e) m = m
  try_batch-Moves b (raised (runtime_error t), e) m = batch_failed-Moves b (runtime_error t) e m
  try_batch-Moves b (raised (value_error t), e) m = batch_failed-Moves b (value_error t) e m
  try_batch-Moves b (raised (http x), e) m = batch_failed-Moves b (http x) e m
  try_batch-Moves b (out_of_fuel, e) m = m

  Moving-try_batch :
      (group : List String)
      → Mv (λ e. try_batch drive config pages (list_multi_pages drive config pages group e))
  unfolding list_multi_pages
  Moving-try_batch group = record {
    at = λ e.
        try_batch-Moves (books e) (list_multi_pages drive config pages group e)
          ((Moving-multi_from pages group none _).at e);
  }

  Moving-fill :
      (got : Children) (group : List String) (result : Children)
      → Mv (fill drive config pages got group result)
  unfolding fill
  Moving-fill got [] result = Moving-pure drive config result
  Moving-fill got (fid ∷ group) result =
      Moving-bind drive config _ _
        (Moving-if drive config (is_nonempty (children_of fid got)) _ _ (Moving-pure drive config _)
          (Moving-bind drive config _ _
            (Moving-list_children drive config fid fid (pos 0) (pos 0) pages)
            (λ kids. Moving-pure drive config _)))
        (Moving-fill got group)

  Moving-use_batch :
      (group : List String) (result : Children) (batched : Option Children)
      → Mv (use_batch drive config pages group result batched)
  unfolding use_batch
  Moving-use_batch group result none = Moving-fill [] group result
  Moving-use_batch group result (some batched) =
      Moving-if drive config (ltb 1 (length group) && not (any_children batched)) _ _
        (Moving-fill [] group result) (Moving-fill batched group result)

  Moving-list_groups :
      (groups : List (List String)) (result : Children)
      → Mv (list_groups drive config pages groups result)
  unfolding list_groups
  Moving-list_groups [] result = record { at = λ e. rests }
  Moving-list_groups (group ∷ groups) result = record {
    at = λ e. Moving-test drive config e.stop e result _ (
        Moving-bind drive config _ _
          (Moving-bind drive config _ _ (Moving-try_batch group) (Moving-use_batch group result))
          (Moving-list_groups groups));
  }

  pub Moving-batched_list : (ids : List String) → Mv (batched_list drive config pages ids)
  unfolding batched_list
  Moving-batched_list ids = Moving-list_groups (groups_from 50 [] ids) []
