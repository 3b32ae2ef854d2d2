-- ===== src/Copier/Listing/Laws.antt =====
-- What a listing returns, against the pages that Drive gives out.
use gdrive_turbo_copy.Prelude.{
  ℕ, zero, suc, ◌+◌, ◌≤◌, ◌≡◌, ◌⊎◌, ◌∙◌, refl, sym, ap, subst, String, true, Option, none, some,
  List, [], ◌++◌, arith, inl, inr, is_set, Bool-cases, string_eq, ==_refl,
}
use gdrive_turbo_copy.Prelude.Int.{pos}
use gdrive_turbo_copy.Prelude.Sets.{contains, contains-add}
use gdrive_turbo_copy.Models.DriveFile.{FileReply, DriveFile}
use gdrive_turbo_copy.Models.Config.{CopyConfig}
use gdrive_turbo_copy.Retry.Errors.{Exc, quota_stopped, classify_error}
use gdrive_turbo_copy.Retry.Loop.{Reply, reply, failed}
use gdrive_turbo_copy.Copier.Drive.{Drive, Page}
use gdrive_turbo_copy.Copier.Engine.{Engine, Outcome, done, raised, out_of_fuel}
use gdrive_turbo_copy.Copier.Checks.{is_fatal_quota}
use gdrive_turbo_copy.Copier.Book.{stop_with}
use gdrive_turbo_copy.Copier.Listing.{
  files_of, quota_while, list_failed, mark_broken, list_answer, list_from, list_children,
}
use gdrive_turbo_copy.Copier.Listing.Pages.{
  append_assoc, files_of-append, Lists, last_page, page_of, from, turn, turn_last, turn_more,
}

module _ (drive : Drive) (config : CopyConfig) (folder_id : String) where
  module _ (parent : String) where
    list_from_all :
        (fuel n page : ℕ) (token : Option String) (out : List DriveFile) (e : Engine drive.World)
        (files : List FileReply) (w' : drive.World)
        → Lists drive config folder_id token e.world files w' n
        → n ≤ fuel
        → from drive config folder_id parent fuel token page out e
          ≡ (done (out ++ files_of files), record e { world = w' })
    unfolding list_from
    list_from_all zero n page token out e files w' (last_page h l) enough = absurd (omega arith)
    list_from_all zero n page token out e files w' (page_of h l rest) enough = absurd (omega arith)
    list_from_all (suc fuel) n page token out e files w' (last_page h l) enough =
        ap (turn drive config folder_id parent fuel page out e) h
        ∙ turn_last drive config folder_id parent fuel page _ out e files w' l
    list_from_all (suc fuel) n page token out e files w'
          (page_of {w' = v} {files = fs} {rest = more} {next = next} h l rest) enough =
        ap (turn drive config folder_id parent fuel page out e) h
        ∙ turn_more drive config folder_id parent fuel page next out e fs v l
        ∙ (list_from_all fuel _ (page + 1) next (out ++ files_of fs) (record e { world = v }) more
              w' rest (omega arith)
            ∙ ap (λ o. (done o, record e { world = w' }))
                (append_assoc out (files_of fs) (files_of more)
                  ∙ ap (λ l. out ++ l) (sym (files_of-append fs more))))

    -- The folder is entered among those whose listing failed, and the run knows of it.
    abbrev pub Broken : Engine drive.World → Type 0
    Broken e =
        (contains folder_id e.listing_error_folders ≡ true) × (e.result.had_listing_errors ≡ true)

    -- How a listing may end that goes on from a token, with `out` read before.
    abbrev pub ListingEnds :
        Option String
        → drive.World
        → List DriveFile
        → Outcome (List DriveFile) × Engine drive.World
        → Type 0
    ListingEnds token w out (done all, e) =
        Broken e
        ⊎ ((files : List FileReply) × (n : ℕ) × Lists drive config folder_id token w files e.world n
            × (all ≡ out ++ files_of files))
    ListingEnds token w out (raised x, e) =
        (e.stop ≡ true)
        × (reason : String) × (x ≡ quota_stopped (some reason))
        × (e.result.stop_reason ≡ some reason)
    ListingEnds token w out (out_of_fuel, e) = Unit

    mark_broken-Broken :
        (e : Engine drive.World)
        → Broken (mark_broken drive config folder_id parent (pos 0) (pos 0) e)
    unfolding mark_broken
    mark_broken-Broken e = (
      contains-add folder_id folder_id e.listing_error_folders ∙ rw (==_refl folder_id) refl,
      refl,
    )

    list_failed-ListingEnds :
        (exc : Exc) (page : ℕ) (token : Option String) (w : drive.World) (out out' : List DriveFile)
        (e : Engine drive.World)
        → ListingEnds token w out
            (list_failed drive config folder_id parent (pos 0) (pos 0) exc page out' e)
    unfolding list_failed quota_while stop_with
    list_failed-ListingEnds exc page token w out out' e =
        elim (Bool-cases (is_fatal_quota (classify_error exc))) [
          | inl quota ↦ rw quota (refl, _, refl, refl)
          | inr other ↦ rw other (inl (mark_broken-Broken _))
        ]

    -- What follows a page that came.
    prepend :
        (token next : Option String) (w w' : drive.World) (out : List DriveFile)
        (files : List FileReply) (end : Outcome (List DriveFile) × Engine drive.World)
        → drive.list_children folder_id config.exclude_substrings token w
          ≡ (reply (files, next), w')
        → is_set next ≡ true
        → ListingEnds next w' (out ++ files_of files) end
        → ListingEnds token w out end
    prepend token next w w' out files (done all, e) h l (inl broken) = inl broken
    prepend token next w w' out files (done all, e) h l (inr (rest, n, pages, same)) = inr (
      files ++ rest,
      suc n,
      page_of h l pages,
      same
          ∙ append_assoc out (files_of files) (files_of rest)
          ∙ ap (λ l. out ++ l) (sym (files_of-append files rest)),
    )
    prepend token next w w' out files (raised x, e) h l end = end
    prepend token next w w' out files (out_of_fuel, e) h l end = end

    turn_failed :
        (fuel page : ℕ) (out : List DriveFile) (e : Engine drive.World) (exc : Exc)
        (w' : drive.World)
        → turn drive config folder_id parent fuel page out e (failed exc, w')
          ≡ list_failed drive config folder_id parent
              (pos 0)
              (pos 0)
              exc
              (page + 1)
              out
              (record e { world = w' })
    unfolding list_answer
    turn_failed fuel page out e exc w' = refl

    turn-ListingEnds :
        (fuel page : ℕ) (token : Option String) (out : List DriveFile) (e : Engine drive.World)
        (answer : Reply Page) (w' : drive.World)
        → drive.list_children folder_id config.exclude_substrings token e.world ≡ (answer, w')
        → ((next : Option String) (now : List DriveFile) (e' : Engine drive.World)
            → ListingEnds next e'.world now
                (from drive config folder_id parent fuel next (page + 1) now e'))
        → ListingEnds token e.world out
            (turn drive config folder_id parent fuel page out e (answer, w'))
    turn-ListingEnds fuel page token out e (failed exc) w' h later =
        subst (ListingEnds token e.world out) (sym (turn_failed fuel page out e exc w'))
          (list_failed-ListingEnds exc (page + 1) token e.world out out (record e { world = w' }))
    turn-ListingEnds fuel page token out e (reply (files, next)) w' h later =
        elim (Bool-cases (is_set next)) [
          | inl more ↦
              subst (ListingEnds token e.world out)
                (sym (turn_more drive config folder_id parent fuel page next out e files w' more))
                (prepend token next e.world w' out files _ h more (later next _ _))
          | inr last ↦
              subst (ListingEnds token e.world out)
                (sym (turn_last drive config folder_id parent fuel page next out e files w' last))
                (inr (files, 1, last_page h last, refl))
        ]

    list_from-ListingEnds :
        (fuel page : ℕ) (token : Option String) (out : List DriveFile) (e : Engine drive.World)
        → ListingEnds token e.world out (from drive config folder_id parent fuel token page out e)
    unfolding list_from
    list_from-ListingEnds zero page token out e = tt
    list_from-ListingEnds (suc fuel) page token out e =
        turn-ListingEnds fuel page token out e _ _ refl
          (λ next now e'. list_from-ListingEnds fuel (page + 1) next now e')

    -- A listing of all pages that returns has read the files of every page that Drive has, or else
    -- the folder stands among those whose listing failed: a broken listing never passes for an
    -- empty folder. A listing that raises has stopped the run, and gives the run's reason.
    pub list_children-ListingEnds :
        (fuel : ℕ) (e : Engine drive.World)
        → ListingEnds none e.world []
            (list_children drive config folder_id parent (pos 0) (pos 0) fuel e)
    unfolding list_children
    list_children-ListingEnds fuel e = list_from-ListingEnds fuel 0 none [] e

    -- As long as the fuel is not below the number of pages that Drive has, a listing of all pages
    -- returns the files of every page, in their order, and changes nothing else in the run.
    pub list_children_all :
        (fuel n : ℕ) (e : Engine drive.World) (files : List FileReply) (w' : drive.World)
        → Lists drive config folder_id none e.world files w' n
        → n ≤ fuel
        → list_children drive config folder_id parent (pos 0) (pos 0) fuel e
          ≡ (done (files_of files), record e { world = w' })
    unfolding list_children
    list_children_all fuel n e files w' pages enough =
        list_from_all fuel n 0 none [] e files w' pages enough
