-- ===== src/Program/Running.antt =====
-- A run of the program, with a command or with a session, over the files of an earlier one, against the
-- specification of its task.
use octet.Prelude.{
  ℕ, ◌≡◌, refl, sym, ap, subst, ◌∙◌, fun_ext, Bool, false, Option, some, List, [], ◌∷◌, nat_eq,
  list_eq, Bytes,
}
use octet.Disk.{FilePath, Disk}
use octet.Protocol.{JsonLibrary}
use octet.Storage.{Storage}
use octet.Storage.Contract.{view}
use octet.Storage.Kept.{IsKept, IsSoundFor, same-IsKeyed}
use octet.Storage.Lives.{IsIn, started, construct-started, started-IsDurable}
use octet.Storage.Lifecycle.{construct, destroy, snapshot_thread, IsSoundClosing, destroy-IsDurable}
use octet.Storage.Unchanged.{destroy-IsSame}
use octet.Storage.Paths.{SameFiles}
use octet.Commands.Spec.{View, Meets, Task, alone, session, MeetsTask, ran_alone, ran_session}
use octet.Commands.Beside.{Session, run_session}
use octet.Commands.{execute_shot, listed}
use octet.Program.Beside.{entered_words, SoundEvents, run_beside-meets}
use octet.Args.{Mode, single_shot, interactive, Start}
use octet.Program.{Outside, exit_code, set_thresholds, dispatch, run_over, launch, is_early}
use octet.Program.Runs.{closed, set_thresholds-get}
use octet.Program.Rounds.{AreSoundRounds, snapshot_thread-Undisturbed}
use octet.Files.Effects.{IsReadable}
use octet.Storage.Recovery.{AllReadable}
use octet.Program.Single.{shot-Follows}
use octet.Program.Thresholds.{set_thresholds-IsLike, IsLike-IsKept}

-- The files in the directory are those of a manager that holds these strings.
abbrev pub Holds : View → FilePath → Disk → Type 0
Holds v dir d = (s : Storage) × IsIn dir s × IsKept s d × (view s ≡ v)

-- What a run is started for.
pub data Started : Type 0 where
  with_command : List Bytes → Started
  with_lines : Started

abbrev pub mode_of : Started → Mode
mode_of (with_command args) = single_shot args
mode_of with_lines = interactive

-- A run that can read the files of its storage.
abbrev pub IsReading : Outside → Type 0
IsReading o = IsReadable o.opening × IsReadable o.ensuring × AllReadable o.loading

-- A run with its arguments, as `main` reads them, and what it draws.
pub record Run : Type 0 where
  pub outside : Outside
  pub started_for : Started
  pub disable_warnings : Bool
  pub operations_threshold : Option ℕ
  pub time_threshold : Option ℕ

abbrev pub task_of : Started → Outside → Task
task_of (with_command args) o = alone args
task_of with_lines o = session (entered_words o.events)

abbrev pub tasks_of : List Run → List Task
tasks_of [] = []
tasks_of (r ∷ rs) = task_of r.started_for r.outside ∷ tasks_of rs

abbrev pub start_of : Bytes → Run → Start
start_of storage_path r = record {
  mode = mode_of r.started_for;
  storage_path = storage_path;
  disable_warnings = r.disable_warnings;
  operations_threshold = r.operations_threshold;
  time_threshold = r.time_threshold;
}

module _ (stoul : Bytes → Option ℕ) (executable : Bytes) (json : JsonLibrary)
    (bind : FilePath → Disk → Option Disk) (to_path : Bytes → FilePath) (temp_directory : FilePath)
    (storage_path : Bytes) where
  abbrev pub dir : FilePath
  dir = to_path storage_path

  unfoldable pub launch_run : Run → Disk → Option (ℕ × List Bytes × Disk)
  launch_run r d =
      launch stoul executable json bind to_path temp_directory r.outside (start_of storage_path r) d

  -- The storage that the command works on.
  abbrev pub opened : Run → Disk → Storage
  opened r d =
      set_thresholds r.outside.time r.operations_threshold r.time_threshold
        (started r.outside.loading r.outside.now r.outside.time dir d)

  -- What the command, the session or the server makes of it.
  abbrev pub worked : Started → Outside → Storage → Disk → Session
  worked (with_command args) o s d =
      let (s1, d1) = snapshot_thread o.before s d in
      let (result, line, s', d') = execute_shot stoul o.command args s1 d1 in
      let (s2, d2) = snapshot_thread o.behind s' d' in (exit_code result, listed line, s2, d2)
  worked with_lines o s d = run_session stoul o.events s d

  abbrev pub work : Run → Disk → Session
  work r d = worked r.started_for r.outside (opened r d) d

  -- What the run leaves.
  abbrev pub last : Run → Disk → Storage × Disk
  last r d = let (_, _, s, d') = work r d in destroy r.outside.closing s d'

  abbrev pub IsSoundWork : Started → Outside → Storage → Disk → Type 0
  IsSoundWork (with_command args) o s d =
      let (s1, d1) = snapshot_thread o.before s d in
      let (result, line, s', d') = execute_shot stoul o.command args s1 d1 in
      AreSoundRounds o.before s d
      × IsSoundFor o.command.answers o.command.new_uuid o.command.now
      × AreSoundRounds o.behind s' d'
  IsSoundWork with_lines o s d = SoundEvents stoul o.events s d

  -- The system lets the files be read, the writes of the commands and the snapshots have their whole
  -- effect or none, and what they write can be read again.
  abbrev pub IsSoundRun : Run → Disk → Type 0
  IsSoundRun r d =
      let o = r.outside in
      IsReading o
      × IsSoundWork r.started_for o (opened r d) d
      × IsSoundClosing o.closing ((work r d).2)

  -- What is done, and what is kept.
  abbrev pub TaskFollows : Task → Storage → Session → Type 0
  TaskFollows task s (code, lines, s', d') =
      MeetsTask task (view s) (code, lines) (view s') × IsKept s' d' × SameFiles s' s

  worked-TaskFollows :
      (t : Started) (o : Outside) (s : Storage) (d : Disk)
      → IsKept s d
      → IsSoundWork t o s d
      → TaskFollows (task_of t o) s (worked t o s d)
  unfolding octet.Commands.Beside.run_beside run_session
  worked-TaskFollows (with_command args) o s d h (before, sound, behind) =
      let (s1, d1) = snapshot_thread o.before s d in
      let (result, line, s', d') = execute_shot stoul o.command args s1 d1 in
      let (s2, d2) = snapshot_thread o.behind s' d' in
      let (kept1, seen1, (j1, p1)) = snapshot_thread-Undisturbed o.before s d before h in
      let (meets, kept, (j, p)) = shot-Follows o.command s1 d1 sound kept1 stoul args in
      let (kept2, seen2, (j2, p2)) = snapshot_thread-Undisturbed o.behind s' d' behind kept in
      (
        ran_alone (
            subst (λ v. Meets args v (exit_code result, line) (view s2)) seen1
              (subst (λ v. Meets args (view s1) (exit_code result, line) v) (sym seen2) meets)),
        kept2,
        (j2 ∙ j ∙ j1, p2 ∙ p ∙ p1),
      )
  worked-TaskFollows with_lines o s d h sound =
      let (meets, kept, files) = run_beside-meets stoul o.events s d h sound in
      (ran_session meets, kept, files)

  dispatch-worked :
      (t : Started) (o : Outside) (s : Storage) (d : Disk)
      → dispatch stoul executable json bind to_path temp_directory o (mode_of t) s d
        ≡ worked t o s d
  unfolding dispatch
  dispatch-worked (with_command args) o s d = refl
  dispatch-worked with_lines o s d = refl

  started-late :
      (t : Started) → is_early stoul executable json bind to_path temp_directory (mode_of t) ≡ false
  started-late (with_command args) = refl
  started-late with_lines = refl

  launch_run-over :
      (r : Run) (d : Disk)
      → let o = r.outside in
        launch_run r d
        ≡ run_over stoul executable json bind to_path temp_directory o
            (start_of storage_path r)
            (construct o.opening o.ensuring o.loading o.now o.time dir d)
  unfolding launch_run launch
  launch_run-over r d = rw (started-late r.started_for)

  module _ (r : Run) (v : View) (d : Disk) (sound : IsSoundRun r d) (held : Holds v dir d) where
    opened_facts : IsIn dir (opened r d) × IsKept (opened r d) d × (view (opened r d) ≡ v)
    opened_facts =
        let o = r.outside in
        let (s, place, (durable, keyed), seen) = held in
        let t = started o.loading o.now o.time dir d in
        let (durable', place', back) =
          started-IsDurable o.loading o.now o.time dir s d place durable ((sound.0).2) in
        let (store, journal, snapshot) =
          set_thresholds-IsLike o.time r.operations_threshold r.time_threshold t in
        let same : view t ≡ view s = fun_ext back in
        (
          (journal ∙ place'.0, snapshot ∙ place'.1),
          IsLike-IsKept t (opened r d) d (store, journal, snapshot)
              (durable', same-IsKeyed same keyed),
          fun_ext (set_thresholds-get o.time r.operations_threshold r.time_threshold t)
              ∙ same
              ∙ seen,
        )

    work_facts : TaskFollows (task_of r.started_for r.outside) (opened r d) (work r d)
    work_facts =
        worked-TaskFollows r.started_for r.outside (opened r d) d (opened_facts.1) (sound.1)

    last_facts : Holds (view ((work r d).2)) dir ((last r d).1)
    last_facts =
        let c = r.outside.closing in
        let (_, _, s, d') = work r d in
        let (seen, journal, snapshot) = destroy-IsSame c s d' in
        let (_, (durable, keyed), (journal', snapshot')) = work_facts in
        let ((at_journal, at_snapshot), _, _) = opened_facts in
        (
          (last r d).0,
          (journal ∙ journal' ∙ at_journal, snapshot ∙ snapshot' ∙ at_snapshot),
          (destroy-IsDurable c s d' (sound.2) durable, same-IsKeyed seen keyed),
          seen,
        )

    launched : launch_run r d ≡ some ((work r d).0, (work r d).1, (last r d).1)
    unfolding run_over
    launched =
        let o = r.outside in
        let (s, place, (durable, keyed), seen) = held in
        launch_run-over r d
        ∙ ap
            (run_over stoul executable json bind to_path temp_directory o (start_of storage_path r))
            (construct-started o.loading o.now o.time dir s d place durable o.opening o.ensuring
              ((sound.0).0) ((sound.0).1))
        ∙ ap (closed stoul executable json bind to_path temp_directory o)
            (dispatch-worked r.started_for o (opened r d) d)

    -- A run does what the specification of its task says, and leaves the files of what it says.
    pub run-meets :
        (out : ℕ × List Bytes) × (v' : View) × (launch_run r d ≡ some (out.0, out.1, (last r d).1))
        × MeetsTask (task_of r.started_for r.outside) v out v'
        × Holds v' dir ((last r d).1)
    run-meets =
        let (code, lines, s', _) = work r d in
        (
          (code, lines),
          view s',
          launched,
          subst (λ x. MeetsTask (task_of r.started_for r.outside) x (code, lines) (view s'))
              (opened_facts.2) (work_facts.0),
          last_facts,
        )
