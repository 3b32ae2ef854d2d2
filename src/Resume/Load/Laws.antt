-- ===== src/Resume/Load/Laws.antt =====
-- What the logs that are read make together.
use gdrive_turbo_copy.Prelude.{
  ◌≡◌, refl, subst, String, Bool, false, ◌||◌, Option, none, some, List, [], ◌∷◌, arith,
}
use gdrive_turbo_copy.Prelude.Sets.{contains, contains-union}
use gdrive_turbo_copy.Models.DriveFile.{FileReply}
use gdrive_turbo_copy.Models.Records.{ResumeState}
use gdrive_turbo_copy.Retry.Loop.{Reply, reply, failed}
use gdrive_turbo_copy.Resume.Read.{Read, ok, bad, deserialize}
use gdrive_turbo_copy.Resume.Load.{
  merge_log, own_fields, parsed, parse_media, read_id, read_log, note_own, absorbed, absorb_answer,
  absorb,
}
use gdrive_turbo_copy.Copier.Drive.{Drive}
use gdrive_turbo_copy.Copier.Engine.{
  Engine, Outcome, done, raised, out_of_fuel, Action, settle, attempt, continue,
}

-- `any(x in s.copied_ids for s in states)`, and for the finished folders.
abbrev pub any_copied : String → List ResumeState → Bool
any_copied x [] = false
any_copied x (s ∷ states) = contains x s.copied_ids || any_copied x states

abbrev pub any_finished : String → List ResumeState → Bool
any_finished x [] = false
any_finished x (s ∷ states) = contains x s.completed_folders || any_finished x states

-- The state `s` is `merged` with the given states put in.
pub record Merged (merged s : ResumeState) (states : List ResumeState) : Type 0 where
  pub copied :
      (x : String) → contains x s.copied_ids ≡ (contains x merged.copied_ids || any_copied x states)
  pub finished :
      (x : String)
      → contains x s.completed_folders
        ≡ (contains x merged.completed_folders || any_finished x states)

module _ (drive : Drive) where
  -- A log is read: Drive gives the content of its own file, which tells the state.
  abbrev pub ReadLog : FileReply → drive.World → ResumeState → drive.World → Type 0
  ReadLog entry w state w' =
      (id : String) × (text : String) × (entry.id ≡ some id)
      × (drive.get_media id w ≡ (reply text, w'))
      × (deserialize drive.codec (drive.now w') text ≡ ok state)

  -- One log after the other is read, and the states are those that they tell.
  pub data ReadIn : List FileReply → drive.World → List ResumeState → drive.World → Type 0 where
    none_left : {w : drive.World} → ReadIn [] w [] w
    then_reads :
        {entry : FileReply} {entries : List FileReply} {w w' w'' : drive.World}
        {state : ResumeState} {states : List ResumeState}
        → ReadLog entry w state w'
        → ReadIn entries w' states w''
        → ReadIn (entry ∷ entries) w (state ∷ states) w''

  -- A method that returns, returns and leaves what satisfies the predicate.
  abbrev Holds :
      {A : Type 0} → (A → Engine drive.World → Type 0) → Outcome A × Engine drive.World → Type 0
  Holds Q (done a, e) = Q a e
  Holds Q (raised x, e) = Unit {0}
  Holds Q (out_of_fuel, e) = Unit {0}

  Holds-continue :
      {A B : Type 0} (P : A → Engine drive.World → Type 0) (Q : B → Engine drive.World → Type 0)
      (out : Outcome A × Engine drive.World) (f : A → Action drive.World B)
      → Holds P out
      → ((a : A) (e : Engine drive.World) → P a e → Holds Q (f a e))
      → Holds Q (continue out f)
  Holds-continue P Q (done a, e) f p k = k a e p
  Holds-continue P Q (raised x, e) f p k = tt
  Holds-continue P Q (out_of_fuel, e) f p k = tt

  Holds-then :
      {A : Type 0} (P Q : A → Engine drive.World → Type 0) (out : Outcome A × Engine drive.World)
      → Holds P out
      → ((a : A) (e : Engine drive.World) → P a e → Q a e)
      → Holds Q out
  Holds-then P Q (done a, e) p k = k a e p
  Holds-then P Q (raised x, e) p k = tt
  Holds-then P Q (out_of_fuel, e) p k = tt

  -- The predicate, of an answer.
  abbrev Replies :
      {A : Type 0} → (A → Engine drive.World → Type 0) → Reply A → Engine drive.World → Type 0
  Replies P (reply a) e = P a e
  Replies P (failed x) e = Unit {0}

  Holds-settle :
      {A : Type 0} (P : A → Engine drive.World → Type 0) (out : Outcome A × Engine drive.World)
      → Holds P out
      → Holds (Replies P) (settle out)
  Holds-settle P (done a, e) p = p
  Holds-settle P (raised x, e) p = tt
  Holds-settle P (out_of_fuel, e) p = tt

  -- The state was read from the entry, by a call on the given Drive.
  abbrev From : FileReply → drive.World → ResumeState → Engine drive.World → Type 0
  From entry w state e = ReadLog entry w state e.world

  Holds-parsed :
      (entry : FileReply) (w : drive.World) (id text : String) (r : Read ResumeState)
      (e : Engine drive.World)
      → entry.id ≡ some id
      → drive.get_media id w ≡ (reply text, e.world)
      → deserialize drive.codec (drive.now e.world) text ≡ r
      → Holds (From entry w) (parsed drive r e)
  Holds-parsed entry w id text (ok s) e named content h = (id, text, named, content, h)
  Holds-parsed entry w id text (bad message) e named content h = tt

  Holds-parse_media :
      (entry : FileReply) (w : drive.World) (id : String) (r : Reply String)
      (e : Engine drive.World)
      → entry.id ≡ some id
      → drive.get_media id w ≡ (r, e.world)
      → Holds (From entry w) (parse_media drive r e)
  Holds-parse_media entry w id (failed exc) e named content = tt
  Holds-parse_media entry w id (reply text) e named content =
      Holds-parsed entry w id text (deserialize drive.codec (drive.now e.world) text) e named
        content refl

  Holds-read_id :
      (entry : FileReply) (o : Option String) (e : Engine drive.World)
      → entry.id ≡ o
      → Holds (From entry e.world) (read_id drive o e)
  Holds-read_id entry none e named = tt
  Holds-read_id entry (some id) e named =
      let p = drive.get_media id e.world in
      Holds-parse_media entry e.world id p.0 (record e { world = p.1 }) named refl

  Holds-read_log :
      (entry : FileReply) (e : Engine drive.World)
      → Holds (From entry e.world) (read_log drive entry e)
  unfolding read_log
  Holds-read_log entry e = Holds-read_id entry entry.id e refl

  absorbed-copied :
      (entry : FileReply) (e : Engine drive.World) (merged state : ResumeState) (x : String)
      → contains x (absorbed drive entry e merged state).copied_ids
        ≡ (contains x merged.copied_ids || contains x state.copied_ids)
  unfolding merge_log own_fields
  absorbed-copied entry e merged state x =
      ground (arith, contains-union x merged.copied_ids state.copied_ids)

  absorbed-finished :
      (entry : FileReply) (e : Engine drive.World) (merged state : ResumeState) (x : String)
      → contains x (absorbed drive entry e merged state).completed_folders
        ≡ (contains x merged.completed_folders || contains x state.completed_folders)
  unfolding merge_log own_fields
  absorbed-finished entry e merged state x =
      ground (arith, contains-union x merged.completed_folders state.completed_folders)

  -- What the reading of these logs, from one state of Drive to another, makes of a state.
  abbrev pub Absorbed :
      List FileReply → drive.World → ResumeState → ResumeState → drive.World → Type 0
  Absorbed entries w merged s w' =
      (states : List ResumeState) × ReadIn entries w states w' × Merged merged s states

  abbrev Absorbs :
      List FileReply → drive.World → ResumeState → ResumeState → Engine drive.World → Type 0
  Absorbs entries w merged s e = Absorbed entries w merged s e.world

  Absorbed-next :
      (entry : FileReply) (entries : List FileReply) (w w' : drive.World) (e : Engine drive.World)
      (merged state s : ResumeState)
      → ReadLog entry w state e.world
      → Absorbed entries e.world (absorbed drive entry e merged state) s w'
      → Absorbed (entry ∷ entries) w merged s w'
  Absorbed-next entry entries w w' e merged state s a (states, reads, m) = (
    state ∷ states,
    then_reads a reads,
    record {
      copied = λ x. ground (arith, m.copied x, absorbed-copied entry e merged state x);
      finished = λ x. ground (arith, m.finished x, absorbed-finished entry e merged state x);
    },
  )

  note_own-world :
      (entry : FileReply) (e : Engine drive.World) → (note_own drive entry e).world ≡ e.world
  note_own-world entry e = ground arith

  Holds-absorb_answer :
      (entry : FileReply) (entries : List FileReply) (w : drive.World) (merged : ResumeState)
      → ((now : ResumeState) (e : Engine drive.World)
          → Holds (Absorbs entries e.world now) (absorb drive false entries now e))
      → (r : Reply ResumeState) (e : Engine drive.World) → Replies (From entry w) r e
      → Holds
          (Absorbs (entry ∷ entries) w merged)
          (absorb_answer drive false entry merged (absorb drive false entries) r e)
  unfolding absorb_answer
  Holds-absorb_answer entry entries w merged k (failed exc) e a = tt
  Holds-absorb_answer entry entries w merged k (reply state) e a =
      let next = absorbed drive entry e merged state in
      Holds-then (Absorbs entries e.world next) (Absorbs (entry ∷ entries) w merged)
        (absorb drive false entries next (note_own drive entry e))
        (subst
          (λ x.
            Holds (Absorbs entries x next)
              (absorb drive false entries next (note_own drive entry e)))
          (note_own-world entry e) (k next (note_own drive entry e)))
        (λ s e'. Absorbed-next entry entries w e'.world e merged state s a)

  Holds-absorb :
      (entries : List FileReply) (merged : ResumeState) (e : Engine drive.World)
      → Holds (Absorbs entries e.world merged) (absorb drive false entries merged e)
  unfolding absorb
  Holds-absorb [] merged e =
      ([], none_left, record { copied = λ x. ground arith; finished = λ x. ground arith })
  Holds-absorb (entry ∷ entries) merged e =
      Holds-continue (Replies (From entry e.world)) (Absorbs (entry ∷ entries) e.world merged)
        (attempt (read_log drive entry) e) _
        (Holds-settle (From entry e.world) (read_log drive entry e) (Holds-read_log entry e))
        (Holds-absorb_answer entry entries e.world merged (Holds-absorb entries))

  -- Without `ignore_broken`, a loading of logs that returns has read every log on the list, in order:
  -- Drive gave the content of its file, and `deserialize` accepted it. A file counts as copied in the
  -- state that is returned if it did before, or does in one of these logs, and otherwise it does not.
  -- So it is with the finished folders.
  pub absorb_lem :
      (entries : List FileReply) (merged s : ResumeState) (e e' : Engine drive.World)
      → absorb drive false entries merged e ≡ (done s, e')
      → Absorbed entries e.world merged s e'.world
  absorb_lem entries merged s e e' h =
      subst (Holds (Absorbs entries e.world merged)) h (Holds-absorb entries merged e)
