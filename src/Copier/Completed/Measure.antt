-- ===== src/Copier/Completed/Measure.antt =====
-- What is left of the tree while the search goes down.
use gdrive_turbo_copy.Prelude.{
  ℕ, ◌≤◌, ◌<◌, ◌≡◌, ◌∙◌, refl, subst, String, true, false, not, some, List, [], ◌∷◌, ◌==◌, arith,
  inl, inr, keep, length, string_eq, ==_refl, eq_of_==, Bool-cases,
}
use mathlib.Core.Option.{none-ne-some}
use gdrive_turbo_copy.Prelude.Dict.{Dict, lookup}
use gdrive_turbo_copy.Prelude.Sets.{contains, add, contains-add}
use gdrive_turbo_copy.Copier.Engine.{FolderNode}

-- The folders of the tree that the search has not come through.
abbrev pub left : List String → Dict FolderNode → ℕ
left stack d = length (keep (λ entry. not (contains entry.0 stack)) d)

left-add-le :
    (fid : String) (stack : List String) (d : Dict FolderNode)
    → left (add fid stack) d ≤ left stack d
left-add-le fid stack [] = omega arith
left-add-le fid stack (entry ∷ d) =
    ground (arith, contains-add entry.0 fid stack, left-add-le fid stack d)

pub left-add-lt :
    (fid : String) (stack : List String) (d : Dict FolderNode) (node : FolderNode)
    → lookup fid d ≡ some node
    → contains fid stack ≡ false
    → left (add fid stack) d < left stack d
unfolding lookup
left-add-lt fid stack [] node e new = absurd (none-ne-some node e)
left-add-lt fid stack (entry ∷ d) node e new = elim (Bool-cases (fid == entry.0)) [
  | inl same ↦
      let is = eq_of_== fid entry.0 same in
      let out = subst (λ k. contains k stack ≡ false) is new in
      let in_now =
        subst (λ k. contains k (add fid stack) ≡ true) is
          (contains-add fid fid stack ∙ rw (==_refl fid) refl) in
      ground (arith, out, in_now, left-add-le fid stack d)
  | inr other ↦
      ground
        (arith, contains-add entry.0 fid stack, left-add-lt fid stack d node (rw other at e) new)
]
