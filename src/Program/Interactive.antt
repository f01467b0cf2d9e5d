-- ===== src/Program/Interactive.antt =====
-- A session of the interactive mode, with the storage's thread beside it, against its specification.
use octet.Prelude.{
  ℕ, suc, ◌≡◌, refl, sym, ap, subst, inl, inr, Bool, true, false, Option, none, some, List, [], ◌∷◌,
  arith, nat_eq, list_eq, list_beq, ltb, nat_beq, Option-cases, Bytes, codes, length,
}
use octet.Disk.{Disk}
use octet.Files.Append.{IsAllOrNothing}
use octet.Snapshot.{Fits}
use octet.Storage
use octet.Storage.{Storage}
use octet.Storage.Contract.{view}
use octet.Storage.Snapshots.{create_snapshot-IsDurable}
use octet.Storage.Unchanged.{create_snapshot-IsSame}
use octet.Storage.Paths.{SameFiles}
use octet.Storage.Kept.{IsKept, IsSoundFor, same-IsKeyed}
use octet.Words.{parse_input, merge_vector}
use octet.Commands.{
  failure, CommandName, insert, get, update, remove, snapshot, set_operations, set_minutes, leave,
  help, Draw, Outcome, find_command, args_count, only_for_interactive, result_of, printed, merged,
  set_threshold, execute, run_command, do_execute, execute_shot, after_command, run_parsed,
  run_line,
}
use octet.Commands.Names.{
  unknown-usage, unknown-service, unknown-help, unknown-exit, do_execute-unknown, command_text,
  find_command-text,
}
use octet.Help.{farewell}
use octet.Commands.Spec.{
  is_usage, is_service, is_word, MeetsLine, commanded, served, helped, left, ignored,
}
use octet.Help.{help_message}
use octet.Program.Single.{too_many, Follows, named-Follows}
use octet.Program.Thresholds.{IsLike, IsLike-IsKept, operations-IsLike, minutes-IsLike}

any_more : (n : ℕ) → ltb 0 (suc n) ≡ true
any_more n = ground arith

more_than_one : (n : ℕ) → ltb 1 (suc (suc n)) ≡ true
more_than_one n = ground arith

not_none : (n : ℕ) → nat_beq (suc n) 0 ≡ false
not_none n = ground arith

abbrev pub words_of : Option (Bytes × List Bytes) → List Bytes
words_of none = []
words_of (some (command, args)) = command ∷ args

-- What a line has done, and what it has kept.
abbrev pub LineFollows : List Bytes → Storage → Bool × Option Bytes × Storage × Disk → Type 0
LineFollows words s (ends, line, s', d') =
    MeetsLine words (view s) (ends, line) (view s') × IsKept s' d' × SameFiles s' s

-- A line's commands and its snapshot draw sound answers.
abbrev pub IsSoundLine : Draw → Storage → Type 0
IsSoundLine w s =
    IsSoundFor w.answers w.new_uuid w.now × IsAllOrNothing w.journal_answers × Fits s.data_store

module _ (w : Draw) (s : Storage) (d : Disk) (sound : IsSoundLine w s) (h : IsKept s d)
    (stoul : Bytes → Option ℕ) where
  stays :
      (words : List Bytes) (ends : Bool) (line : Option Bytes)
      → MeetsLine words (view s) (ends, line) (view s)
      → LineFollows words s (ends, line, s, d)
  stays words ends line meets = (meets, h, (refl, refl))

  after_printed :
      (o : Option Bytes) (s' : Storage) (d' : Disk)
      → after_command stoul ((printed o).0, (printed o).1, s', d') ≡ (false, (printed o).1, s', d')
  unfolding after_command
  after_printed none s' d' = refl
  after_printed (some line) s' d' = refl

  after_result :
      (b : Bool) (s' : Storage) (d' : Disk)
      → after_command stoul (result_of b, none, s', d') ≡ (false, none, s', d')
  unfolding after_command
  after_result true s' d' = refl
  after_result false s' d' = refl

  -- A command that a single run knows, too.
  basic :
      (words : List Bytes) (o : Outcome)
      → is_usage words ≡ true
      → after_command stoul o ≡ (false, o.1, o.2, o.3)
      → Follows words s o
      → LineFollows words s (after_command stoul o)
  basic words o usage plain (meets, kept, files) = rw plain (commanded usage meets, kept, files)

  abbrev line_of : Bytes → List Bytes → Bool × Option Bytes × Storage × Disk
  line_of command args = after_command stoul (do_execute stoul false w command args s d)

  snapshot-LineFollows : LineFollows (codes "snapshot" ∷ []) s (line_of (codes "snapshot") [])
  unfolding do_execute run_command execute find_command merged list_beq args_count
      only_for_interactive is_service
  snapshot-LineFollows =
      let ((whole, id, stamp), whole', fits) = sound in
      let r = Storage.create_snapshot w.answers w.journal_answers w.now w.time w.new_uuid s d in
      let (seen, journal, snapshot_file) =
        create_snapshot-IsSame w.answers w.journal_answers w.now w.new_uuid w.time s d in
      let durable =
        create_snapshot-IsDurable w.answers w.journal_answers w.now w.new_uuid w.time s d whole
          whole' id stamp fits h.0 in
      rw (after_result (r.0) (r.1) (r.2)) (
        rw seen (served (codes "snapshot" ∷ []) (view s) refl),
        (durable, same-IsKeyed seen h.1),
        (journal, snapshot_file),
      )

  refused :
      (words : List Bytes) (o : Bool × Option Bytes × Storage × Disk)
      → is_usage words ≡ false
      → is_service words ≡ false
      → is_word (codes "help") words ≡ false
      → is_word (codes "exit") words ≡ false
      → o ≡ after_command stoul (failure, none, s, d)
      → LineFollows words s o
  unfolding after_command
  refused words o usage service no_help no_exit e =
      rw e (stays words false none (ignored words (view s) usage service no_help no_exit))

  threshold-LineFollows :
      (words : List Bytes) (o : Option ℕ) (set : ℕ → Storage → Storage)
      → is_service words ≡ true
      → ((n : ℕ) → IsLike (set n s) s)
      → LineFollows words s (after_command stoul (set_threshold stoul o set s d))
  unfolding after_command set_threshold Storage.get
  threshold-LineFollows words none set service like =
      stays words false none (served words (view s) service)
  threshold-LineFollows words (some n) set service like =
      let (store, journal, snapshot_file) = like n in
      (
        rw store (served words (view s) service),
        IsLike-IsKept s (set n s) d (like n) h,
        (journal, snapshot_file),
      )

  named-LineFollows :
      (name : CommandName) (args : List Bytes)
      → LineFollows (command_text name ∷ args) s (line_of (command_text name) args)
  unfolding do_execute run_command execute find_command merged list_beq merge_vector args_count
      only_for_interactive command_text is_usage execute_shot is_service is_word
  named-LineFollows insert [] = refused _ _ refl refl refl refl refl
  named-LineFollows insert (first ∷ more) =
      basic (codes "insert" ∷ first ∷ more) _ (rw (any_more (length more))) (after_printed _ _ _)
        (named-Follows w s d (sound.0) h stoul insert (first ∷ more))
  named-LineFollows get [] = refused _ _ refl refl refl refl refl
  named-LineFollows get (uuid ∷ []) =
      basic (codes "get" ∷ uuid ∷ []) _ refl (after_printed _ _ _)
        (named-Follows w s d (sound.0) h stoul get (uuid ∷ []))
  named-LineFollows get (uuid ∷ other ∷ more) =
      let many = too_many (length more) in refused _ _ (rw many) refl refl refl (rw many)
  named-LineFollows update [] = refused _ _ refl refl refl refl refl
  named-LineFollows update (uuid ∷ []) = refused _ _ refl refl refl refl refl
  named-LineFollows update (uuid ∷ first ∷ more) =
      basic (codes "update" ∷ uuid ∷ first ∷ more) _ (rw (more_than_one (length more)))
        (after_result _ _ _) (named-Follows w s d (sound.0) h stoul update (uuid ∷ first ∷ more))
  named-LineFollows remove [] = refused _ _ refl refl refl refl refl
  named-LineFollows remove (uuid ∷ []) =
      basic (codes "remove" ∷ uuid ∷ []) _ refl (after_result _ _ _)
        (named-Follows w s d (sound.0) h stoul remove (uuid ∷ []))
  named-LineFollows remove (uuid ∷ other ∷ more) =
      let many = too_many (length more) in refused _ _ (rw many) refl refl refl (rw many)
  named-LineFollows snapshot [] = snapshot-LineFollows
  named-LineFollows snapshot (other ∷ more) =
      let more' = not_none (length more) in refused _ _ refl (rw more') refl refl (rw more')
  named-LineFollows set_operations [] = refused _ _ refl refl refl refl refl
  named-LineFollows set_operations (n ∷ []) =
      threshold-LineFollows _ (stoul n) _ refl (λ m. operations-IsLike m s)
  named-LineFollows set_operations (n ∷ other ∷ more) =
      let many = too_many (length more) in refused _ _ refl (rw many) refl refl (rw many)
  named-LineFollows set_minutes [] = refused _ _ refl refl refl refl refl
  named-LineFollows set_minutes (n ∷ []) =
      threshold-LineFollows _ (stoul n) _ refl (λ m. minutes-IsLike w.time m s)
  named-LineFollows set_minutes (n ∷ other ∷ more) =
      let many = too_many (length more) in refused _ _ refl (rw many) refl refl (rw many)
  named-LineFollows leave [] = unfold after_command in stays _ true (some farewell) (left (view s))
  named-LineFollows leave (other ∷ more) =
      let more' = not_none (length more) in refused _ _ refl refl refl (rw more') (rw more')
  named-LineFollows help [] =
      unfold after_command in stays _ false (some help_message) (helped (view s))
  named-LineFollows help (other ∷ more) =
      let more' = not_none (length more) in refused _ _ refl refl (rw more') refl (rw more')

  run_parsed-LineFollows :
      (parsed : Option (Bytes × List Bytes))
      → LineFollows (words_of parsed) s (run_parsed stoul w parsed s d)
  unfolding run_parsed is_usage is_service is_word
  run_parsed-LineFollows none = stays [] false none (ignored [] (view s) refl refl refl refl)
  run_parsed-LineFollows (some (command, args)) = elim (Option-cases (find_command command)) [
    | inl unknown ↦
        refused (command ∷ args) _ (unknown-usage command args unknown)
          (unknown-service command args unknown) (unknown-help command args unknown)
          (unknown-exit command args unknown)
          (ap (after_command stoul) (do_execute-unknown stoul false w command args s d unknown))
    | inr (name, found) ↦
        subst (λ c. LineFollows (c ∷ args) s (line_of c args))
          (sym (find_command-text command name found)) (named-LineFollows name args)
  ]

  pub run_line-LineFollows :
      (input : Bytes) → LineFollows (words_of (parse_input input)) s (run_line stoul w input s d)
  unfolding run_line
  run_line-LineFollows input = run_parsed-LineFollows (parse_input input)
