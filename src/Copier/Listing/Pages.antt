-- ===== src/Copier/Listing/Pages.antt =====
-- The pages that Drive gives out of a folder, and one turn of the loop that reads them.
use gdrive_turbo_copy.Prelude.{
  ℕ, suc, ◌+◌, ◌≡◌, refl, ap, String, true, false, Option, List, [], ◌∷◌, ◌++◌, arith, is_set,
  string_eq,
}
use gdrive_turbo_copy.Prelude.Int.{pos}
use gdrive_turbo_copy.Models.DriveFile.{FileReply, DriveFile, from_api}
use gdrive_turbo_copy.Models.Config.{CopyConfig}
use gdrive_turbo_copy.Retry.Loop.{Reply, reply}
use gdrive_turbo_copy.Copier.Drive.{Drive, Page}
use gdrive_turbo_copy.Copier.Engine.{Engine, Outcome, done}
use gdrive_turbo_copy.Copier.Listing.{files_of, extend, list_answer, list_from}

pub append_assoc : {A : Type 0} (xs ys zs : List A) → (xs ++ ys) ++ zs ≡ xs ++ (ys ++ zs)
append_assoc [] ys zs = refl
append_assoc (x ∷ xs) ys zs = ap (λ l. x ∷ l) (append_assoc xs ys zs)

pub files_of-append : (a b : List FileReply) → files_of (a ++ b) ≡ files_of a ++ files_of b
unfolding files_of
files_of-append [] b = refl
files_of-append (f ∷ a) b = ap (λ l. from_api f ∷ l) (files_of-append a b)

module _ (drive : Drive) (config : CopyConfig) (folder_id : String) where
  -- From a token in a world, Drive gives out these files over so many pages, the last of which has no
  -- token for a next one.
  pub data Lists : Option String → drive.World → List FileReply → drive.World → ℕ → Type 0 where
    last_page :
        {token : Option String} {w w' : drive.World} {files : List FileReply} {next : Option String}
        → drive.list_children folder_id config.exclude_substrings token w
          ≡ (reply (files, next), w')
        → is_set next ≡ false
        → Lists token w files w' 1
    page_of :
        {token : Option String} {w w' w'' : drive.World} {files rest : List FileReply}
        {next : Option String} {n : ℕ}
        → drive.list_children folder_id config.exclude_substrings token w
          ≡ (reply (files, next), w')
        → is_set next ≡ true
        → Lists next w' rest w'' n
        → Lists token w (files ++ rest) w'' (suc n)

  module _ (parent : String) where
    abbrev pub from :
        ℕ
        → Option String
        → ℕ
        → List DriveFile
        → Engine drive.World
        → Outcome (List DriveFile) × Engine drive.World
    from = list_from drive config folder_id parent (pos 0) (pos 0)

    every_page :
        (page : ℕ) (files : List FileReply) (out : List DriveFile)
        → extend drive config folder_id parent (pos 0) (pos 0) (page + 1) files out
          ≡ out ++ files_of files
    every_page page files out = ground arith

    -- One turn of the loop, on the pair that the call gives.
    abbrev pub turn :
        ℕ
        → ℕ
        → List DriveFile
        → Engine drive.World
        → Reply Page × drive.World
        → Outcome (List DriveFile) × Engine drive.World
    turn fuel page out e p =
        list_answer drive config folder_id parent (pos 0) (pos 0)
          (λ next now. from fuel next (page + 1) now) (page + 1) out p.0 (record e { world = p.1 })

    pub turn_last :
        (fuel page : ℕ) (next : Option String) (out : List DriveFile) (e : Engine drive.World)
        (files : List FileReply) (w' : drive.World)
        → is_set next ≡ false
        → turn fuel page out e (reply (files, next), w')
          ≡ (done (out ++ files_of files), record e { world = w' })
    unfolding list_answer
    turn_last fuel page next out e files w' l =
        rw l (ap (λ o. (done o, record e { world = w' })) (every_page page files out))

    pub turn_more :
        (fuel page : ℕ) (next : Option String) (out : List DriveFile) (e : Engine drive.World)
        (files : List FileReply) (w' : drive.World)
        → is_set next ≡ true
        → turn fuel page out e (reply (files, next), w')
          ≡ from fuel next (page + 1) (out ++ files_of files) (record e { world = w' })
    unfolding list_answer
    turn_more fuel page next out e files w' l = rw l (
        ap (λ o. from fuel next (page + 1) o (record e { world = w' })) (every_page page files out))
