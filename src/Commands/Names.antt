-- ===== src/Commands/Names.antt =====
-- The table of commands as a correspondence between texts and names.
use octet.Prelude.{
  ℕ, ◌≡◌, ◌∙◌, inl, inr, Bool, false, Option, none, some, List, ◌∷◌, arith, ◌==◌, nat_eq, list_eq,
  if◌then◌else◌, Bool-cases, Bytes, codes,
}
use octet.Disk.{Disk}
use octet.Storage.{Storage}
use octet.Commands.Spec.{is_usage, is_service, is_word}
use octet.Commands.{
  failure, Draw, do_execute, CommandName, insert, get, update, remove, snapshot, set_operations,
  set_minutes, leave, help, find_command,
}

unfoldable pub command_text : CommandName → Bytes
command_text insert = codes "insert"
command_text get = codes "get"
command_text update = codes "update"
command_text remove = codes "remove"
command_text snapshot = codes "snapshot"
command_text set_operations = codes "set-snapshot-operations"
command_text set_minutes = codes "set-snapshot-minutes"
command_text leave = codes "exit"
command_text help = codes "help"

-- Every name that is found stands for the text.
abbrev IsNamedBy : Bytes → Option CommandName → Type 0
IsNamedBy c o = (name : CommandName) → o ≡ some name → c ≡ command_text name

tested :
    (c : Bytes) (name : CommandName) (rest : Option CommandName)
    → IsNamedBy c rest
    → IsNamedBy c (if c == command_text name then some name else rest)
tested c name rest later = elim (Bool-cases (c == command_text name)) [
  | inl same ↦ rw same (λ found e. (list_eq.same_iff c (command_text name)).0 same ∙ cc)
  | inr other ↦ rw other later
]

pub find_command-text : (c : Bytes) → IsNamedBy c (find_command c)
unfolding find_command command_text
find_command-text c = tested c insert _ (
    tested c get _ (
      tested c update _ (
        tested c remove _ (
          tested c snapshot _ (
            tested c set_operations _
              (tested c set_minutes _ (tested c leave _ (tested c help _ (λ found e. cc)))))))))

-- A command that is not in the table fails, and is none of those that the specification names.
pub do_execute-unknown :
    (stoul : Bytes → Option ℕ) (shot : Bool) (w : Draw) (command : Bytes) (args : List Bytes)
    (s : Storage) (d : Disk)
    → find_command command ≡ none
    → do_execute stoul shot w command args s d ≡ (failure, none, s, d)
unfolding do_execute find_command
do_execute-unknown stoul shot w command args s d unknown = ground (arith, unknown)

pub unknown-usage :
    (command : Bytes) (args : List Bytes)
    → find_command command ≡ none
    → is_usage (command ∷ args) ≡ false
unfolding find_command is_usage
unknown-usage command args unknown = ground (arith, unknown)

pub unknown-service :
    (command : Bytes) (args : List Bytes)
    → find_command command ≡ none
    → is_service (command ∷ args) ≡ false
unfolding find_command is_service
unknown-service command args unknown = ground (arith, unknown)

pub unknown-help :
    (command : Bytes) (args : List Bytes)
    → find_command command ≡ none
    → is_word (codes "help") (command ∷ args) ≡ false
unfolding find_command is_word
unknown-help command args unknown = ground (arith, unknown)

pub unknown-exit :
    (command : Bytes) (args : List Bytes)
    → find_command command ≡ none
    → is_word (codes "exit") (command ∷ args) ≡ false
unfolding find_command is_word
unknown-exit command args unknown = ground (arith, unknown)
