-- ===== src/Examples/Histories.antt =====
-- An example for whole runs: a session that inserts a string, with a round of the thread behind it.
use octet.Prelude.{
  ℕ, ◌≡◌, refl, sym, ap, subst, ◌∙◌, fun_ext, ◌⊎◌, inl, inr, Bool, true, false, Option, none, some,
  List, [], ◌∷◌, arith, nat_eq, list_eq, list_beq, if◌then◌else◌, Bytes, codes,
}
use octet.Disk.{Disk}
use octet.Map
use octet.Snapshot.{Fits}
use octet.Storage
use octet.Storage.{Storage, fresh, get, insert}
use octet.Storage.Contract.{view}
use octet.Storage.Kept.{IsKept, same-IsKeyed}
use octet.Storage.Lifecycle.{snapshot_round-data_store, IsSoundRound}
use octet.Commands.{run_line, run_interactive_mode}
use octet.Commands.Lines.{run_line-insert}
use octet.Commands.Beside.{
  Event, entered, rounded, Session, after_line, run_beside, run_session, run_beside-lines,
  only_lines, without_lines,
}
use octet.Commands.Spec.{View, MeetsSession, MeetsAll, session}
use octet.Program.{set_thresholds}
use octet.Uuid.{generate_uuid, set_width}
use octet.Program.Beside.{SoundEvents, run_session-meets, IfNot}
use octet.Program.Running.{Run, with_lines, work, IsSoundRun, Holds}
use octet.Program.Histories.{launch_all, AllSound, launch_all-meets}
use octet.Help.{greeting}
use octet.Words.Parsing.{IsTrimmed}
use octet.Examples.{
  new_disk, new_storage, well, stamp, uuid, readable_answers, well-IsAllOrNothing, uuid-IsId,
  stamp-IsStamp, new_storage-IsDurable,
}
use octet.Examples.Serving.{inserting, bind, no_keys}
use octet.Storage.Paths.{SameFiles}
use octet.Words.{parse_input, rtrim, skip_spaces, arguments_of}
use octet.Storage.Lives.{started-IsDurable}
use octet.Examples.Launching.{
  command_draw, outside, round, reading, at_start, at_start-empty, to_path, new_storage-IsHere,
  none-Fits,
}

abbrev no_number : Bytes → Option ℕ
no_number t = none

abbrev word : Bytes
word = codes "hi"

abbrev events : List Event
events = entered command_draw (codes "insert hi") ∷ rounded round ∷ []

insert-store :
    (s : Storage) (d : Disk)
    → ((insert well stamp uuid word s d).1.data_store ≡ Map.assign uuid word s.data_store)
      ⊎ ((insert well stamp uuid word s d).1.data_store ≡ s.data_store)
unfolding insert Storage.notify_operation Storage.request_snapshot_async
insert-store s d = ground arith

word-Fits : Fits (Map.assign uuid word [])
unfolding Map.assign generate_uuid set_width
word-Fits = record { count = omega arith; pairs = ((omega arith, omega arith), tt) }

inserted-Fits : Fits (insert well stamp uuid word at_start new_disk).1.data_store
inserted-Fits = elim (insert-store at_start new_disk) [
  | inl new ↦ subst Fits (sym (new ∙ ap (Map.assign uuid word) at_start-empty)) word-Fits
  | inr old ↦ subst Fits (sym (old ∙ at_start-empty)) none-Fits
]

word-IsTrimmed : IsTrimmed word
unfolding skip_spaces rtrim
word-IsTrimmed = (refl, refl, refl)

abbrev after_first : Bool × Option Bytes × Storage × Disk
after_first = run_line no_number command_draw (codes "insert hi") at_start new_disk

after_first-Fits : Fits (after_first.2).data_store
after_first-Fits =
    subst (λ x. Fits (x.2).data_store)
      (sym (
        run_line-insert no_number command_draw [] 32 [] word [] at_start new_disk tt (refl, tt)
          word-IsTrimmed tt))
      inserted-Fits

-- Whether the line ends the session or not.
whole-Fits :
    (o : Bool × Option Bytes × Storage × Disk)
    → Fits (o.2).data_store
    → let rest = run_beside no_number (rounded round ∷ []) (o.2) (o.3) in
      Fits ((after_line (o.1) (if o.0 then (0, [], o.2, o.3) else rest)).2).data_store
unfolding run_beside
whole-Fits (true, none, s, d) h = h
whole-Fits (true, some line, s, d) h = h
whole-Fits (false, none, s, d) h = subst Fits (sym (snapshot_round-data_store round s d)) h
whole-Fits (false, some line, s, d) h = subst Fits (sym (snapshot_round-data_store round s d)) h

any : {A : Type 0} (b : Bool) → A → IfNot b A
any true a = tt
any false a = a

events-Sound : SoundEvents no_number events at_start new_disk
unfolding SoundEvents
events-Sound = (
  (
    (well-IsAllOrNothing, uuid-IsId, stamp-IsStamp),
    well-IsAllOrNothing,
    subst Fits (sym at_start-empty) none-Fits,
  ),
  any (after_first.0)
      ((well-IsAllOrNothing, well-IsAllOrNothing, uuid-IsId, stamp-IsStamp, after_first-Fits), tt),
)

abbrev run : Run
run = record {
  outside = record outside { events = events };
  started_for = with_lines;
  disable_warnings = false;
  operations_threshold = none;
  time_threshold = none;
}

closing_round-IsSound :
    IsSoundRound round
      (work no_number [] inserting bind to_path (codes "tmp" ∷ []) (codes "data") run new_disk).2
unfolding set_thresholds run_beside run_session
closing_round-IsSound = (
  well-IsAllOrNothing,
  well-IsAllOrNothing,
  uuid-IsId,
  stamp-IsStamp,
  whole-Fits after_first after_first-Fits,
)

run-IsSound :
    IsSoundRun no_number [] inserting bind to_path (codes "tmp" ∷ []) (codes "data") run new_disk
unfolding set_thresholds run_beside
run-IsSound = (reading, events-Sound, (closing_round-IsSound, closing_round-IsSound))

held : Holds (view new_storage) (to_path (codes "data")) new_disk
held = (new_storage, new_storage-IsHere, (new_storage-IsDurable, no_keys), refl)

launch_all-meets_example :
    (outs : List (ℕ × List Bytes)) × (d' : Disk) × (v' : View) × (launch_all no_number [] inserting
        bind to_path
        (codes "tmp" ∷ [])
        (codes "data")
        (run ∷ [])
        new_disk
      ≡ some (outs, d'))
    × MeetsAll (session ((codes "insert" ∷ word ∷ []) ∷ []) ∷ []) (view new_storage) outs v'
    × Holds v' (to_path (codes "data")) d'
unfolding AllSound parse_input arguments_of list_beq
launch_all-meets_example =
    launch_all-meets no_number [] inserting bind to_path (codes "tmp" ∷ []) (codes "data")
      (run ∷ []) (view new_storage) new_disk held (run-IsSound, tt)

at_start-IsKept : IsKept at_start new_disk
at_start-IsKept =
    let (durable, place, back) =
      started-IsDurable readable_answers stamp 5 (to_path (codes "data")) new_storage new_disk
        new_storage-IsHere new_storage-IsDurable (reading.2) in
    (durable, same-IsKeyed (fun_ext back) no_keys)

abbrev after : Session
after = run_session no_number events at_start new_disk

run_session-meets_example :
    (rest : List Bytes) × (after.1 ≡ greeting ∷ rest)
    × MeetsSession
        ((codes "insert" ∷ word ∷ []) ∷ [])
        (view at_start)
        (after.0, rest)
        (view (after.2))
    × IsKept (after.2) (after.3)
    × SameFiles (after.2) at_start
unfolding parse_input arguments_of list_beq
run_session-meets_example =
    run_session-meets no_number events at_start new_disk at_start-IsKept events-Sound

run_beside-lines_example :
    let lines = only_lines no_number (λ n. command_draw) (codes "insert hi" ∷ codes "exit" ∷ []) in
    without_lines no_number (run_beside no_number lines at_start new_disk)
    ≡ run_interactive_mode no_number
        (λ n. command_draw)
        (codes "insert hi" ∷ codes "exit" ∷ [])
        at_start
        new_disk
run_beside-lines_example =
    run_beside-lines no_number (λ n. command_draw) (codes "insert hi" ∷ codes "exit" ∷ []) at_start
      new_disk
