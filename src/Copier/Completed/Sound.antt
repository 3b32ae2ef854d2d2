-- ===== src/Copier/Completed/Sound.antt =====
-- What the search remembers is true, from a folder to its parent.
use gdrive_turbo_copy.Prelude.{
  ◌≡◌, ◌∙◌, refl, sym, ap, subst, String, Bool, true, false, not, ◌&&◌, ◌||◌, Option, none, some,
  List, is_some, [], ◌∷◌, ◌==◌, arith, inl, inr, all, string_eq, eq_of_==, Bool-cases,
}
use mathlib.Core.Bool.{false≢true}
use gdrive_turbo_copy.Prelude.Dict.{Dict, lookup, insert, lookup-insert}
use gdrive_turbo_copy.Prelude.Sets.{contains}
use gdrive_turbo_copy.Copier.Engine.{FolderNode}
use gdrive_turbo_copy.Copier.Completed.{
  Verdict, and_then, all_complete, remember, files_copied, judge_node, recall,
}

module _ (known copied failed : List String) (tree : Dict FolderNode) where
  -- A folder known from an earlier run; or one whose listing was clean, that may be skipped, all of
  -- whose files are copied and none failed, and all of whose subfolders are complete.
  pub data Complete : String → Type 0 where
    known_before : {fid : String} → contains fid known ≡ true → Complete fid
    all_there :
        {fid : String} (node : FolderNode)
        → lookup fid tree ≡ some node
        → node.listing_ok ≡ true
        → node.eligible ≡ true
        → all (λ eid. contains eid copied && not (contains eid failed)) node.file_eff_ids ≡ true
        → ((sub : String) → contains sub node.subfolder_ids ≡ true → Complete sub)
        → Complete fid

  -- What is remembered as complete is complete.
  abbrev pub Remembered : Dict Bool → Type 0
  Remembered memo = (fid : String) → lookup fid memo ≡ some true → Complete fid

  abbrev pub Sound : String → Verdict → Type 0
  Sound fid none = ⊥
  Sound fid (some (b, memo)) = (b ≡ true → Complete fid) × Remembered memo

  abbrev pub AllSound : List String → Verdict → Type 0
  AllSound subs none = ⊥
  AllSound subs (some (b, memo)) =
      (b ≡ true → (sub : String) → contains sub subs ≡ true → Complete sub) × Remembered memo

  Remembered-insert :
      (fid : String) (b : Bool) (memo : Dict Bool)
      → (b ≡ true → Complete fid)
      → Remembered memo
      → Remembered (insert fid b memo)
  Remembered-insert fid b memo c m x h = elim (Bool-cases (x == fid)) [
    | inl same ↦
        subst Complete (sym (eq_of_== x fid same)) (c (ground (arith, lookup-insert x fid b memo)))
    | inr other ↦ m x (ground (arith, lookup-insert x fid b memo))
  ]

  cons-Complete :
      (sub : String) (subs : List String)
      → Complete sub
      → ((x : String) → contains x subs ≡ true → Complete x)
      → (x : String) → contains x (sub ∷ subs) ≡ true
      → Complete x
  unfolding contains
  cons-Complete sub subs c cs x h = elim (Bool-cases (x == sub)) [
    | inl same ↦ subst Complete (sym (eq_of_== x sub same)) c
    | inr other ↦ cs x (ground arith)
  ]

  AllSound-cons :
      (sub : String) (subs : List String) (v : Verdict)
      → Complete sub
      → AllSound subs v
      → AllSound (sub ∷ subs) v
  AllSound-cons sub subs (some (b, memo)) c (cs, m) = (λ h. cons-Complete sub subs c (cs h), m)
  AllSound-cons sub subs none c x = x

  and_then-AllSound :
      (sub : String) (subs : List String) (rest : Dict Bool → Verdict) (v : Verdict)
      → Sound sub v
      → ((memo : Dict Bool) → Remembered memo → AllSound subs (rest memo))
      → AllSound (sub ∷ subs) (and_then rest v)
  and_then-AllSound sub subs rest (some (true, memo)) (c, m) later =
      AllSound-cons sub subs (rest memo) (c refl) (later memo m)
  and_then-AllSound sub subs rest (some (false, memo)) (c, m) later =
      (λ h. absurd (false≢true h), m)
  and_then-AllSound sub subs rest none x later = absurd x

  pub all_complete-AllSound :
      (visit : String → Dict Bool → Verdict)
      → ((sub : String) (memo : Dict Bool) → Remembered memo → Sound sub (visit sub memo))
      → (subs : List String) (memo : Dict Bool) → Remembered memo
      → AllSound subs (all_complete visit subs memo)
  unfolding all_complete contains
  all_complete-AllSound visit s [] memo m = (λ h sub k. absurd (false≢true k), m)
  all_complete-AllSound visit s (sub ∷ subs) memo m =
      and_then-AllSound sub subs (all_complete visit subs) (visit sub memo) (s sub memo m)
        (all_complete-AllSound visit s subs)

  refused :
      (fid : String) (memo : Dict Bool)
      → Remembered memo
      → Sound fid (some (false, insert fid false memo))
  refused fid memo m =
      (λ h. absurd (false≢true h), Remembered-insert fid false memo (λ h. absurd (false≢true h)) m)

  remember-Sound :
      (fid : String) (subs : List String) (v : Verdict)
      → AllSound subs v
      → (((sub : String) → contains sub subs ≡ true → Complete sub) → Complete fid)
      → Sound fid (remember fid v)
  remember-Sound fid subs (some (b, memo)) (cs, m) grow =
      (λ h. grow (cs h), Remembered-insert fid b memo (λ h. grow (cs h)) m)
  remember-Sound fid subs none x grow = absurd x

  pub judge_node-Sound :
      (fid : String) (memo : Dict Bool) (search : List String → Dict Bool → Verdict)
      (found : Option FolderNode)
      → lookup fid tree ≡ found
      → Remembered memo
      → ((subs : List String) → is_some found ≡ true → AllSound subs (search subs memo))
      → Sound fid (judge_node known copied failed tree fid memo search found)
  unfolding judge_node
  judge_node-Sound fid memo search none e m s = refused fid memo m
  judge_node-Sound fid memo search (some node) e m s =
      elim (Bool-cases (not node.listing_ok || not node.eligible)) [
        | inl bad ↦ rw bad (refused fid memo m)
        | inr good ↦ elim (Bool-cases (files_copied known copied failed tree node)) [
          | inl there ↦ rw good (
              rw there (
                remember-Sound fid node.subfolder_ids (search node.subfolder_ids memo)
                  (s node.subfolder_ids refl)
                  (all_there node e (ground arith) (ground arith) there)))
          | inr missing ↦ rw good (rw missing (refused fid memo m))
        ]
      ]

  pub recall-Sound :
      (fid : String) (o : Option Bool) (memo : Dict Bool) (v : Verdict)
      → lookup fid memo ≡ o
      → Remembered memo
      → Sound fid v
      → Sound fid (recall known copied failed tree o memo v)
  recall-Sound fid none memo v e m s = s
  recall-Sound fid (some b) memo v e m s = (λ h. m fid (e ∙ ap some h), m)
