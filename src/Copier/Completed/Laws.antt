-- ===== src/Copier/Completed/Laws.antt =====
-- The search for completed folders always ends, and finds only folders that are complete.
use gdrive_turbo_copy.Prelude.{
  ℕ, zero, suc, ◌+◌, ◌<◌, ◌≡◌, refl, String, Bool, true, false, not, Option, none, some, List,
  is_some, [], ◌∷◌, ◌++◌, arith, inl, inr, length, All, map, string_eq, Bool-cases, Option-cases,
  length-keep-le,
}
use mathlib.Core.Bool.{false≢true}
use mathlib.Core.Option.{none-ne-some}
use gdrive_turbo_copy.Prelude.Dict.{Dict, lookup}
use gdrive_turbo_copy.Prelude.Sets.{contains, add}
use gdrive_turbo_copy.Copier.Engine.{Engine, FolderNode}
use gdrive_turbo_copy.Copier.Completed.{
  Verdict, failed_ids, all_complete, is_complete, gather, after_verdict, completed_of,
  compute_completed_folders,
}
use gdrive_turbo_copy.Copier.Completed.Measure.{left, left-add-lt}
use gdrive_turbo_copy.Copier.Completed.Sound.{
  Complete, known_before, Remembered, Sound, AllSound, all_complete-AllSound, judge_node-Sound,
  recall-Sound,
}

module _ (known copied failed : List String) (tree : Dict FolderNode) where
  -- What the recursion shows of the subfolders, where the folder is in the tree and new.
  abbrev Visits : ℕ → Type 0
  Visits fuel =
      (fid : String) (stack : List String) (memo : Dict Bool)
      → Remembered known copied failed tree memo
      → left stack tree < fuel
      → Sound known copied failed tree fid
          (is_complete known copied failed tree fuel fid stack memo)

  visit_subfolders :
      (fuel : ℕ) (fid : String) (stack subs : List String) (memo : Dict Bool)
      → Visits fuel
      → Remembered known copied failed tree memo
      → left stack tree < suc fuel
      → contains fid stack ≡ false
      → is_some (lookup fid tree) ≡ true
      → AllSound known copied failed tree subs (
          all_complete
            (λ sub m. is_complete known copied failed tree fuel sub (add fid stack) m)
            subs
            memo)
  visit_subfolders fuel fid stack subs memo visits m enough new there =
      elim (Option-cases (lookup fid tree)) [
        | inl missing ↦ absurd (false≢true (rw missing at there))
        | inr (node, found) ↦
            all_complete-AllSound known copied failed tree _
              (λ sub memo' m'.
                visits sub (add fid stack) memo' m'
                  (omega (arith, left-add-lt fid stack tree node found new)))
              subs memo m
      ]

  is_complete-Sound : (fuel : ℕ) → Visits fuel
  unfolding is_complete
  is_complete-Sound zero fid stack memo m enough = absurd (omega arith)
  is_complete-Sound (suc fuel) fid stack memo m enough = elim (Bool-cases (contains fid known)) [
    | inl before ↦ rw before (λ _. known_before before, m)
    | inr new ↦ rw new (
        recall-Sound known copied failed tree fid (lookup fid memo) memo _ refl m
          (elim (Bool-cases (contains fid stack)) [
            | inl cycle ↦ rw cycle (λ h. absurd (false≢true h), m)
            | inr fresh ↦ rw fresh (
                judge_node-Sound known copied failed tree fid memo _ (lookup fid tree) refl m
                  (λ subs there.
                    visit_subfolders fuel fid stack subs memo (is_complete-Sound fuel) m enough
                      fresh there))
          ]))
  ]

  abbrev AllComplete : Option (List String) → Type 0
  AllComplete none = ⊥
  AllComplete (some fids) = All (Complete known copied failed tree) fids

  gather-AllComplete :
      (fid : String) (b : Bool) (rest : Option (List String))
      → (b ≡ true → Complete known copied failed tree fid)
      → AllComplete rest
      → AllComplete (gather known copied failed tree fid b rest)
  gather-AllComplete fid true (some fids) c cs = (c refl, cs)
  gather-AllComplete fid false (some fids) c cs = cs
  gather-AllComplete fid b none c x = absurd x

  -- One folder of the comprehension.
  next-AllComplete :
      (fuel : ℕ) (fid : String) (fids : List String) (v : Verdict)
      → Sound known copied failed tree fid v
      → ((memo : Dict Bool)
          → Remembered known copied failed tree memo
          → AllComplete (completed_of known copied failed tree fuel fids memo))
      → AllComplete (
          after_verdict known copied failed tree fid v
            (completed_of known copied failed tree fuel fids))
  next-AllComplete fuel fid fids (some (b, memo)) (c, m) later =
      gather-AllComplete fid b _ c (later memo m)
  next-AllComplete fuel fid fids none x later = absurd x

  completed_of-AllComplete :
      (fuel : ℕ)
      → length tree < fuel
      → (fids : List String) (memo : Dict Bool) → Remembered known copied failed tree memo
      → AllComplete (completed_of known copied failed tree fuel fids memo)
  unfolding completed_of
  completed_of-AllComplete fuel enough [] memo m = tt
  completed_of-AllComplete fuel enough (fid ∷ fids) memo m =
      let few = length-keep-le (λ entry. not (contains entry.0 [])) tree in
      next-AllComplete fuel fid fids _ (is_complete-Sound fuel fid [] memo m (omega (arith, few)))
        (completed_of-AllComplete fuel enough fids)

  -- A search that has found something.
  found_folders :
      (o : Option (List String))
      → AllComplete o
      → (fids : List String) × (o ≡ some fids) × All (Complete known copied failed tree) fids
  found_folders (some fids) cs = (fids, refl, cs)
  found_folders none x = absurd x

-- The search always ends with the fuel it is given, and each folder that it finds is complete: known
-- from before, or in the tree with a clean listing and marked as eligible, every file of it copied
-- and not failed, and every subfolder complete.
pub compute_completed_folders-Complete :
    {W : Type 0} (e : Engine W)
    → (folders : List String) × (compute_completed_folders e ≡ some folders)
      × All
          (Complete e.resume_state.completed_folders e.resume_state.copied_ids
            (failed_ids (e.result.failed_items ++ e.result.previous_failed_items))
            e.tree)
          folders
unfolding compute_completed_folders lookup
compute_completed_folders-Complete e =
    found_folders e.resume_state.completed_folders e.resume_state.copied_ids
      (failed_ids (e.result.failed_items ++ e.result.previous_failed_items)) e.tree _
      (completed_of-AllComplete e.resume_state.completed_folders e.resume_state.copied_ids
        (failed_ids (e.result.failed_items ++ e.result.previous_failed_items)) e.tree
        (length e.tree + 1) (omega arith) (map (λ entry. entry.0) e.tree) []
        (λ fid h. absurd (none-ne-some true h)))
