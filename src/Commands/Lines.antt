-- ===== src/Commands/Lines.antt =====
-- Lines of the interactive mode and single commands, down to the storage.
use octet.Prelude.{
  ℕ, ◌≡◌, refl, ap, ◌∙◌, Bool, true, false, Option, none, some, List, [], ◌∷◌, ◌++◌, arith, nat_eq,
  list_eq, list_beq, Bytes, codes,
}
use octet.Disk.{Disk}
use octet.Storage
use octet.Storage.{Storage}
use octet.Words.{join, merge_vector}
use octet.Words.Parsing.{IsBlank, IsTrimmed, parse_input-insert}
use octet.Commands
use octet.Commands.{
  failure, CommandName, find_command, args_count, only_for_interactive, Draw, printed, merged,
  execute, run_command, do_execute, after_command, run_parsed, run_line,
}

module _ (stoul : Bytes → Option ℕ) where
  do_execute-insert :
      (shot : Bool) (w : Draw) (arg : Bytes) (args : List Bytes) (s : Storage) (d : Disk)
      → do_execute stoul shot w (codes "insert") (arg ∷ args) s d
        ≡ execute stoul w octet.Commands.insert (join arg args ∷ []) s d
  unfolding do_execute run_command find_command merged list_beq merge_vector args_count
      only_for_interactive
  do_execute-insert true w arg args s d = refl
  do_execute-insert false w arg args s d = refl

  after_insert :
      (w : Draw) (text : Bytes) (s : Storage) (d : Disk) (uuid : Option Bytes) (s' : Storage)
      (d' : Disk)
      → after_command stoul ((printed uuid).0, (printed uuid).1, s', d') ≡ (false, uuid, s', d')
  unfolding after_command
  after_insert w text s d none s' d' = refl
  after_insert w text s d (some uuid) s' d' = refl

  -- A line of the interactive mode with the command `insert`, spaces and a string that neither
  -- begins nor ends with a space, with any spaces around, inserts the string as it is, prints the
  -- identifier that the storage returns, and does not end the loop.
  pub run_line-insert :
      (w : Draw) (before : Bytes) (c : ℕ) (between text after : Bytes) (s : Storage) (d : Disk)
      → IsBlank before
      → IsBlank (c ∷ between)
      → IsTrimmed text
      → IsBlank after
      → run_line stoul w ((before ++ (codes "insert" ++ c ∷ (between ++ text))) ++ after) s d ≡ (
        false,
        (Storage.insert w.answers w.now w.new_uuid text s d).0,
        (Storage.insert w.answers w.now w.new_uuid text s d).1,
        (Storage.insert w.answers w.now w.new_uuid text s d).2,
      )
  unfolding run_line run_parsed execute join
  run_line-insert w before c between text after s d hb hs ht ha =
      let (uuid, s', d') = Storage.insert w.answers w.now w.new_uuid text s d in
      ap (λ p. run_parsed stoul w p s d)
        (parse_input-insert before c between text after hb hs ht ha)
      ∙ ap (after_command stoul) (do_execute-insert false w text [] s d)
      ∙ after_insert w text s d uuid s' d'

  -- A command that is only for the interactive mode fails in a single run, whatever its arguments,
  -- and changes nothing.
  pub run_command-interactive_only :
      (w : Draw) (name : CommandName) (args : List Bytes) (s : Storage) (d : Disk)
      → only_for_interactive name ≡ true
      → run_command stoul true w name args s d ≡ (failure, none, s, d)
  unfolding run_command
  run_command-interactive_only w name args s d h = rw h ground arith
