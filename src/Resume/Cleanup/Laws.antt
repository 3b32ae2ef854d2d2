-- ===== src/Resume/Cleanup/Laws.antt =====
-- What the tidying of the destination folder lists, and what it puts into the trash.
use text.Mathlib.Text.{starts_with}
use mathlib.Core.Bool.{false≢true}
use gdrive_turbo_copy.Prelude.{
  ℕ, zero, suc, ◌≡◌, ◌⊎◌, ◌∙◌, refl, sym, String, Bool, true, false, Option, none, some, List, [],
  ◌∷◌, is_set, or_else, Bool-cases, inl, inr, eq_of_==, ==_refl, string_eq, option_eq, ◌||◌,
  &&-true,
}
use gdrive_turbo_copy.Prelude.Dict.{lookup}
use gdrive_turbo_copy.Models.DriveFile.{FileReply, tool_tag}
use gdrive_turbo_copy.Retry.Errors.{Exc}
use gdrive_turbo_copy.Retry.Loop.{Reply, reply, failed}
use gdrive_turbo_copy.Resume.Cleanup.{
  props_of, is_ours, is_trash, trash_page, cleanup_answer, cleanup,
}
use gdrive_turbo_copy.Copier.Drive.{Drive, Page}
use gdrive_turbo_copy.Copier.Engine.{Engine, Outcome, done, raised, out_of_fuel, ◌>>=◌, ◌>>◌}

-- A file that carries the tool's mark and is named like a resume log or like the report.
abbrev pub IsToolFile : FileReply → Type 0
IsToolFile f =
    (lookup "copied_by_tool" (props_of f.app_properties) ≡ some tool_tag)
    × ((starts_with (or_else f.name "") ".gdrive_copy_resume" ≡ true)
        ⊎ (or_else f.name "" ≡ "failed_report.json"))

either : (a b : Bool) → (a || b) ≡ true → (a ≡ true) ⊎ (b ≡ true)
either true b h = inl refl
either false b h = inr h

or_right : (a : Bool) → (a || true) ≡ true
or_right true = refl
or_right false = refl

is_trash-IsToolFile : (f : FileReply) → is_trash f ≡ true → IsToolFile f
unfolding is_trash is_ours
is_trash-IsToolFile f h =
    let (ours, named) = &&-true _ _ h in
    (
      eq_of_== (lookup "copied_by_tool" (props_of f.app_properties)) (some tool_tag) ours,
      elim (either _ _ named) [
        | inl log ↦ inl log
        | inr report ↦ inr (eq_of_== (or_else f.name "") "failed_report.json" report)
      ],
    )

IsToolFile-is_trash : (f : FileReply) → IsToolFile f → is_trash f ≡ true
unfolding is_trash is_ours
IsToolFile-is_trash f (ours, inl log) =
    rw (ours, ==_refl {A = Option String} (some tool_tag), log) refl
IsToolFile-is_trash f (ours, inr report) =
    rw
      (
        ours,
        ==_refl {A = Option String} (some tool_tag),
        report,
        ==_refl {A = String} "failed_report.json",
      )
      (or_right (starts_with "failed_report.json" ".gdrive_copy_resume"))

module _ (drive : Drive) where
  -- From one state of Drive to another by trashing, in order, the files of the tool among these. One
  -- without an id is passed over, as is one that Drive does not trash.
  pub data Trashes : List FileReply → drive.World → drive.World → Type 0 where
    ends : {w : drive.World} → Trashes [] w w
    keeps :
        {f : FileReply} {files : List FileReply} {w w' : drive.World}
        → ¬ IsToolFile f
        → Trashes files w w'
        → Trashes (f ∷ files) w w'
    passes :
        {f : FileReply} {files : List FileReply} {w w' : drive.World}
        → f.id ≡ none
        → Trashes files w w'
        → Trashes (f ∷ files) w w'
    trashes :
        {f : FileReply} {files : List FileReply} {w w' : drive.World} (id : String)
        → IsToolFile f
        → f.id ≡ some id
        → Trashes files (drive.trash_file id w).1 w'
        → Trashes (f ∷ files) w w'

  -- A page of the folder, as Drive lists it.
  abbrev pub listed : String → Option String → drive.World → Reply Page × drive.World
  listed parent token w = drive.list_children parent [] token w

  -- What the tidying of a folder does with so many pages: it lists them one by one, and trashes the
  -- files of the tool on each before the next.
  pub data Tidied (parent : String)
      : ℕ → Option String → drive.World → Outcome (Unit {0}) → drive.World → Type 0 where
    out_of_pages :
        {token : Option String} {w : drive.World} → Tidied parent zero token w out_of_fuel w
    refused :
        {pages : ℕ} {token : Option String} {w : drive.World} (exc : Exc)
        → (listed parent token w).0 ≡ failed exc
        → Tidied parent (suc pages) token w (raised exc) (listed parent token w).1
    last_page :
        {pages : ℕ} {token : Option String} {w w' : drive.World} (files : List FileReply)
        (next : Option String)
        → (listed parent token w).0 ≡ reply (files, next)
        → is_set next ≡ false
        → Trashes files (listed parent token w).1 w'
        → Tidied parent (suc pages) token w (done tt) w'
    more_pages :
        {pages : ℕ} {token : Option String} {w w' w'' : drive.World} {o : Outcome (Unit {0})}
        (files : List FileReply) (next : Option String)
        → (listed parent token w).0 ≡ reply (files, next)
        → is_set next ≡ true
        → Trashes files (listed parent token w).1 w'
        → Tidied parent pages next w' o w''
        → Tidied parent (suc pages) token w o w''

  -- A page is done with, and only Drive has changed.
  abbrev Cleared : List FileReply → Engine drive.World → Type 0
  Cleared files e =
      (w' : drive.World) × Trashes files e.world w'
      × (trash_page drive files e ≡ (done tt, record e { world = w' }))

  trash_id-Cleared :
      (f : FileReply) (files : List FileReply) (e : Engine drive.World) (o : Option String)
      → ((e' : Engine drive.World) → Cleared files e')
      → f.id ≡ o
      → is_trash f ≡ true
      → Cleared (f ∷ files) e
  unfolding trash_page
  trash_id-Cleared f files e none rest q own =
      let (w', t, r) = rest e in (w', passes q t, rw (own, q, ◌>>◌, ◌>>=◌) r)
  trash_id-Cleared f files e (some id) rest q own =
      let (w', t, r) = rest (record e { world = (drive.trash_file id e.world).1 }) in
      (w', trashes id (is_trash-IsToolFile f own) q t, rw (own, q, ◌>>◌, ◌>>=◌) r)

  trash_page-Cleared : (files : List FileReply) (e : Engine drive.World) → Cleared files e
  unfolding trash_page
  trash_page-Cleared [] e = (e.world, ends, refl)
  trash_page-Cleared (f ∷ files) e = elim (Bool-cases (is_trash f)) [
    | inl own ↦ trash_id-Cleared f files e f.id (trash_page-Cleared files) refl own
    | inr other ↦
        let (w', t, q) = trash_page-Cleared files e in
        (w', keeps (λ tool. false≢true (sym other ∙ IsToolFile-is_trash f tool)) t, rw other q)
  ]

  -- The engine after the listing of a page.
  abbrev now : String → Option String → Engine drive.World → Engine drive.World
  now parent token e = record e { world = (listed parent token e.world).1 }

  module _ (pages : ℕ) (parent : String)
      (rest : (next : Option String) (e : Engine drive.World)
        → let out = cleanup drive pages parent next e in
          Tidied parent pages next e.world out.0 out.1.world) where
    abbrev Answers : Option String → Engine drive.World → Reply Page → Type 0
    Answers token e r =
        let out =
          cleanup_answer drive (λ next. cleanup drive pages parent next) r (now parent token e) in
        (listed parent token e.world).0 ≡ r
        → Tidied parent (suc pages) token e.world out.0 out.1.world

    page-Answers :
        (token : Option String) (e : Engine drive.World) (files : List FileReply)
        (next : Option String)
        → Cleared files (now parent token e)
        → Answers token e (reply (files, next))
    unfolding cleanup_answer
    page-Answers token e files next (w', t, r) q = elim (Bool-cases (is_set next)) [
      | inl more ↦
          rw (r, more) (more_pages files next q more t (rest next (record e { world = w' })))
      | inr over ↦ rw (r, over) (last_page files next q over t)
    ]

    listing-Answers :
        (token : Option String) (e : Engine drive.World) (r : Reply Page) → Answers token e r
    unfolding cleanup_answer
    listing-Answers token e (failed exc) q = refused exc q
    listing-Answers token e (reply (files, next)) q =
        page-Answers token e files next (trash_page-Cleared files (now parent token e)) q

  -- `cleanup` lists the pages of the folder one after the other and, before it asks for the next,
  -- trashes on each page the files with the tool's mark and the name of a log or a report, in order,
  -- and no other. It ends with a listing that fails, with the last page, or when the fuel is used up,
  -- one unit for a page.
  pub cleanup-Tidied :
      (pages : ℕ) (parent : String) (token : Option String) (e : Engine drive.World)
      → let out = cleanup drive pages parent token e in
        Tidied parent pages token e.world out.0 out.1.world
  unfolding cleanup
  cleanup-Tidied zero parent token e = out_of_pages
  cleanup-Tidied (suc pages) parent token e =
      listing-Answers pages parent (λ next e'. cleanup-Tidied pages parent next e') token e
        (listed parent token e.world).0 refl
