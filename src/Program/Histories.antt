-- ===== src/Program/Histories.antt =====
-- Runs of the program over one directory, one after the other, against their specification.
use octet.Prelude.{ℕ, ◌≡◌, refl, ap, ◌∙◌, Option, none, some, List, [], ◌∷◌, nat_eq, list_eq, Bytes}
use octet.Disk.{FilePath, Disk}
use octet.Protocol.{JsonLibrary}
use octet.Commands.Spec.{View, MeetsAll, done, followed}
use octet.Program.Running.{Run, Holds, launch_run, IsSoundRun, last, run-meets, tasks_of}

abbrev Outputs : Type 0
Outputs = Option (List (ℕ × List Bytes) × Disk)

abbrev prepended : ℕ × List Bytes → Outputs → Outputs
prepended out none = none
prepended out (some (outs, d)) = some (out ∷ outs, d)

-- An exception ends the sequence.
abbrev and_next : Option (ℕ × List Bytes × Disk) → (Disk → Outputs) → Outputs
and_next none next = none
and_next (some (code, lines, d)) next = prepended (code, lines) (next d)

module _ (stoul : Bytes → Option ℕ) (executable : Bytes) (json : JsonLibrary)
    (bind : FilePath → Disk → Option Disk) (to_path : Bytes → FilePath) (temp_directory : FilePath)
    (storage_path : Bytes) where
  abbrev launched : Run → Disk → Option (ℕ × List Bytes × Disk)
  launched r d = launch_run stoul executable json bind to_path temp_directory storage_path r d

  -- The disk that a run leaves.
  abbrev pub left : Run → Disk → Disk
  left r d = (last stoul executable json bind to_path temp_directory storage_path r d).1

  -- The runs one after the other, with what each returns and prints, until one is ended by an exception.
  unfoldable pub launch_all : List Run → Disk → Outputs
  launch_all [] d = some ([], d)
  launch_all (r ∷ rs) d = and_next (launched r d) (λ d'. launch_all rs d')

  -- Every run finds a system that keeps its promises.
  unfoldable pub AllSound : List Run → Disk → Type 0
  AllSound [] d = Unit
  AllSound (r ∷ rs) d =
      IsSoundRun stoul executable json bind to_path temp_directory storage_path r d
      × AllSound rs (left r d)

  launch_all-step :
      (r : Run) (rs : List Run) (d d' d2 : Disk) (out : ℕ × List Bytes)
      (outs : List (ℕ × List Bytes))
      → launched r d ≡ some (out.0, out.1, d')
      → launch_all rs d' ≡ some (outs, d2)
      → launch_all (r ∷ rs) d ≡ some (out ∷ outs, d2)
  unfolding launch_all
  launch_all-step r rs d d' d2 out outs first rest =
      ap (λ o. and_next o (λ d'. launch_all rs d')) first ∙ ap (prepended out) rest

  -- Any sequence of runs of the program over one directory, each a single command or an
  -- interactive session, with any thresholds, ends without an exception and meets the
  -- specification of a map that is kept from run to run: each command and each line prints,
  -- returns and changes what its specification says, a session prints its greeting first, and the
  -- files at the end are those of a manager that holds the last map. Printed are the texts of the
  -- level IMPORTANT. The storage's thread makes its rounds before and behind a single command,
  -- between the lines of a session and, at most once, when a run ends; none comes inside a call of
  -- the storage. Conditions: at first the files are those of a manager that holds the first map,
  -- whose memory and disk agree and whose identifiers the journal can hold; files can be read; no
  -- write is partial, renames and directory synchronisations succeed; generated identifiers and
  -- clock texts can stand in the journal; snapshotted stores fit in 32-bit counts.
  pub launch_all-meets :
      (rs : List Run) (v : View) (d : Disk)
      → Holds v (to_path storage_path) d
      → AllSound rs d
      → (outs : List (ℕ × List Bytes)) × (d' : Disk) × (v' : View) × (launch_all rs d
          ≡ some (outs, d'))
        × MeetsAll (tasks_of rs) v outs v'
        × Holds v' (to_path storage_path) d'
  unfolding AllSound
  launch_all-meets [] v d held sound = ([], d, v, unfold launch_all in refl, done v, held)
  launch_all-meets (r ∷ rs) v d held (sound, later) =
      let (out, v1, done_so, meets, held1) =
        run-meets stoul executable json bind to_path temp_directory storage_path r v d sound held in
      let (outs, d', v', rest, meets', held') = launch_all-meets rs v1 (left r d) held1 later in
      (
        out ∷ outs,
        d',
        v',
        launch_all-step r rs d (left r d) d' out outs done_so rest,
        followed meets meets',
        held',
      )
