-- ===== src/Models/Config/Laws.antt =====
-- When `validate` finds nothing to complain of.
use gdrive_turbo_copy.Prelude.{
  ◌≡◌, ◌↔◌, ◌⊎◌, String, true, false, none, List, [], ◌∷◌, ◌++◌, arith, truthy, eq_of_==, string_eq,
  is_some, refl,
}
use gdrive_turbo_copy.Prelude.Int.{pos, ◌≤ℤ◌, Float}
use gdrive_turbo_copy.Urls.{
  strip, extract_folder_id, search_pattern, match_at, after, size, id_run, first_of_two,
}
use gdrive_turbo_copy.Models.Config.{
  CopyConfig, max_workers, link_errors, number_errors, page_errors, validate,
}

-- A configuration that a run accepts.
pub record IsValid (c : CopyConfig) : Type 0 where
  pub source_found : is_some (extract_folder_id c.source_link) ≡ true
  pub dest_found : is_some (extract_folder_id c.dest_link) ≡ true
  pub some_worker : pos 1 ≤ℤ c.workers
  pub few_workers : c.workers ≤ℤ pos max_workers
  pub size_nonneg : pos 0 ≤ℤ c.max_copy_size_gb.mantissa
  pub rate_nonneg : pos 0 ≤ℤ c.max_tps.mantissa
  pub from_nonneg : pos 0 ≤ℤ c.from_page
  pub to_nonneg : pos 0 ≤ℤ c.to_page
  pub pages_ordered : (c.from_page ≡ pos 0) ⊎ (c.to_page ≡ pos 0) ⊎ (c.from_page ≤ℤ c.to_page)

append-nil_iff : {A : Type 0} (xs ys : List A) → (xs ++ ys ≡ []) ↔ ((xs ≡ []) × (ys ≡ []))
append-nil_iff [] ys = (λ h. (refl, h), λ h. h.1)
append-nil_iff (x ∷ xs) ys = ground arith

eq_empty : (s : String) → truthy s ≡ false → s ≡ ""
eq_empty s h = eq_of_== s "" (ground arith)

found_nowhere :
    first_of_two (search_pattern "folders/" 10 "") (
      first_of_two
        (search_pattern "id=" 10 "")
        (first_of_two (search_pattern "/d/" 10 "") (search_pattern "" 25 "")))
    ≡ none
unfolding search_pattern match_at after size id_run
found_nowhere = refl

extract_empty : (s : String) → truthy (strip s) ≡ false → extract_folder_id s ≡ none
unfolding extract_folder_id
extract_empty String.[] h = refl
extract_empty (String.◌∷◌ c s) h = rw (eq_empty (strip (String.◌∷◌ c s)) h) found_nowhere

link_errors_iff :
    (name link : String) → (link_errors name link ≡ []) ↔ (is_some (extract_folder_id link) ≡ true)
unfolding link_errors
link_errors_iff name link = ground (arith, extract_empty link)

module _ (show_float : Float → String) where
  number_errors_iff :
      (c : CopyConfig)
      → (number_errors show_float c ≡ []) ↔ (
          (pos 1 ≤ℤ c.workers)
          × (c.workers ≤ℤ pos max_workers)
          × (pos 0 ≤ℤ c.max_copy_size_gb.mantissa)
          × (pos 0 ≤ℤ c.max_tps.mantissa))
  unfolding number_errors
  number_errors_iff c = ground arith

  page_errors_iff :
      (c : CopyConfig)
      → (page_errors show_float c ≡ []) ↔ (
          (pos 0 ≤ℤ c.from_page)
          × (pos 0 ≤ℤ c.to_page)
          × ((c.from_page ≡ pos 0) ⊎ (c.to_page ≡ pos 0) ⊎ (c.from_page ≤ℤ c.to_page)))
  unfolding page_errors
  page_errors_iff c = ground arith

  parts-IsValid :
      (c : CopyConfig)
      → link_errors "Source" c.source_link ≡ []
      → link_errors "Destination" c.dest_link ≡ []
      → number_errors show_float c ≡ []
      → page_errors show_float c ≡ []
      → IsValid c
  parts-IsValid c s d n p =
      let numbers = (number_errors_iff c).0 n in
      let pages = (page_errors_iff c).0 p in
      record {
        source_found = (link_errors_iff _ _).0 s;
        dest_found = (link_errors_iff _ _).0 d;
        some_worker = numbers.0;
        few_workers = numbers.1;
        size_nonneg = numbers.2;
        rate_nonneg = numbers.3;
        from_nonneg = pages.0;
        to_nonneg = pages.1;
        pages_ordered = pages.2;
      }

  -- `validate` reports no error exactly for a configuration with an id in both links, 1 to 16
  -- workers, no negative size, rate or page, and pages in order where both ends are given.
  pub validate_iff : (c : CopyConfig) → (validate show_float c ≡ []) ↔ IsValid c
  unfolding validate
  validate_iff c = (
    λ h.
        let (s, h') = (append-nil_iff _ _).0 h in
        let (d, h'') = (append-nil_iff _ _).0 h' in
        let (n, p) = (append-nil_iff _ _).0 h'' in parts-IsValid c s d n p,
    λ v. rw (
      (link_errors_iff "Source" c.source_link).1 v.source_found,
      (link_errors_iff "Destination" c.dest_link).1 v.dest_found,
      (number_errors_iff c).1 (v.some_worker, v.few_workers, v.size_nonneg, v.rate_nonneg),
      (page_errors_iff c).1 (v.from_nonneg, v.to_nonneg, v.pages_ordered),
    ),
  )
