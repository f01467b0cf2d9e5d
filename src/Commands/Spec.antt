-- ===== src/Commands/Spec.antt =====
-- What single commands promise, said of a finite map alone.
use octet.Prelude.{
  ℕ, ◌≡◌, Bool, true, false, ◌&&◌, ◌||◌, Option, none, some, List, [], ◌∷◌, ◌==◌, nat_eq, list_eq,
  ltb, nat_beq, has_value, Bytes, codes, length,
}
use octet.Storage.Contract.{put, delete}
use octet.Help.{help_message, greeting, farewell}
use octet.Commands.{listed}
use octet.Words.{join}

-- The strings under their identifiers.
abbrev pub View : Type 0
View = Bytes → Option Bytes

-- The words that a single run takes as a command.
unfoldable pub is_usage : List Bytes → Bool
is_usage [] = false
is_usage (command ∷ args) =
    command == codes "insert" && ltb 0 (length args)
    || command == codes "get" && nat_beq (length args) 1
    || command == codes "update" && ltb 1 (length args)
    || command == codes "remove" && nat_beq (length args) 1

-- The commands that have to write.
pub data IsWriting : List Bytes → Type 0 where
  inserting : (first : Bytes) (more : List Bytes) → IsWriting (codes "insert" ∷ first ∷ more)
  updating :
      (uuid first : Bytes) (more : List Bytes) → IsWriting (codes "update" ∷ uuid ∷ first ∷ more)
  removing : (uuid : Bytes) → IsWriting (codes "remove" ∷ uuid ∷ [])

-- The words of a command, the map before it, the exit code with the line that is printed, and the map
-- after it.
pub data Meets : List Bytes → View → ℕ × Option Bytes → View → Type 0 where
  inserted :
      (first : Bytes) (more : List Bytes) (uuid : Bytes) (v : View)
      → Meets (codes "insert" ∷ first ∷ more) v (0, some uuid) (put uuid (join first more) v)
  got :
      (uuid text : Bytes) (v : View)
      → v uuid ≡ some text
      → Meets (codes "get" ∷ uuid ∷ []) v (0, some text) v
  missing :
      (uuid : Bytes) (v : View) → v uuid ≡ none → Meets (codes "get" ∷ uuid ∷ []) v (1, none) v
  updated :
      (uuid first : Bytes) (more : List Bytes) (v : View)
      → has_value (v uuid) ≡ true
      → Meets (codes "update" ∷ uuid ∷ first ∷ more) v (0, none) (put uuid (join first more) v)
  removed :
      (uuid : Bytes) (v : View)
      → has_value (v uuid) ≡ true
      → Meets (codes "remove" ∷ uuid ∷ []) v (0, none) (delete uuid v)
  not_written : (args : List Bytes) (v : View) → IsWriting args → Meets args v (1, none) v
  refused : (args : List Bytes) (v : View) → is_usage args ≡ false → Meets args v (1, none) v

-- The words that change what a session does and not what is stored.
unfoldable pub is_service : List Bytes → Bool
is_service [] = false
is_service (command ∷ args) =
    command == codes "snapshot" && nat_beq (length args) 0
    || command == codes "set-snapshot-operations" && nat_beq (length args) 1
    || command == codes "set-snapshot-minutes" && nat_beq (length args) 1

unfoldable pub is_word : Bytes → List Bytes → Bool
is_word word [] = false
is_word word (command ∷ args) = command == word && nat_beq (length args) 0

-- The words of a line, the map before it, whether the session ends and what is printed, and the map
-- after it.
pub data MeetsLine : List Bytes → View → Bool × Option Bytes → View → Type 0 where
  commanded :
      {words : List Bytes} {v v' : View} {code : ℕ} {line : Option Bytes}
      → is_usage words ≡ true
      → Meets words v (code, line) v'
      → MeetsLine words v (false, line) v'
  served :
      (words : List Bytes) (v : View) → is_service words ≡ true → MeetsLine words v (false, none) v
  helped : (v : View) → MeetsLine (codes "help" ∷ []) v (false, some help_message) v
  left : (v : View) → MeetsLine (codes "exit" ∷ []) v (true, some farewell) v
  ignored :
      (words : List Bytes) (v : View)
      → is_usage words ≡ false
      → is_service words ≡ false
      → is_word (codes "help") words ≡ false
      → is_word (codes "exit") words ≡ false
      → MeetsLine words v (false, none) v

-- The texts that are printed, with one more in front.
abbrev pub texts : Option Bytes → List Bytes → List Bytes
texts none lines = lines
texts (some line) lines = line ∷ lines

-- The words of the lines of a session, the map before it, its code with the texts that are printed, and
-- the map after it.
pub data MeetsSession : List (List Bytes) → View → ℕ × List Bytes → View → Type 0 where
  input_ended : (v : View) → MeetsSession [] v (1, []) v
  user_left :
      {words : List Bytes} {more : List (List Bytes)} {v v' : View} {line : Option Bytes}
      → MeetsLine words v (true, line) v'
      → MeetsSession (words ∷ more) v (0, texts line []) v'
  line_done :
      {words : List Bytes} {more : List (List Bytes)} {v v' v2 : View} {line : Option Bytes}
      {code : ℕ} {lines : List Bytes}
      → MeetsLine words v (false, line) v'
      → MeetsSession more v' (code, lines) v2
      → MeetsSession (words ∷ more) v (code, texts line lines) v2

-- What a run is asked: one command, or a session with the words of its lines.
pub data Task : Type 0 where
  alone : List Bytes → Task
  session : List (List Bytes) → Task

-- A task, the map before it, the exit code with the texts that are printed, and the map after it.
pub data MeetsTask : Task → View → ℕ × List Bytes → View → Type 0 where
  ran_alone :
      {args : List Bytes} {v v' : View} {code : ℕ} {line : Option Bytes}
      → Meets args v (code, line) v'
      → MeetsTask (alone args) v (code, listed line) v'
  ran_session :
      {more : List (List Bytes)} {v v' : View} {code : ℕ} {lines : List Bytes}
      → MeetsSession more v (code, lines) v'
      → MeetsTask (session more) v (code, greeting ∷ lines) v'

-- Tasks one after the other.
pub data MeetsAll : List Task → View → List (ℕ × List Bytes) → View → Type 0 where
  done : (v : View) → MeetsAll [] v [] v
  followed :
      {task : Task} {more : List Task} {v v' v2 : View} {out : ℕ × List Bytes}
      {outs : List (ℕ × List Bytes)}
      → MeetsTask task v out v'
      → MeetsAll more v' outs v2
      → MeetsAll (task ∷ more) v (out ∷ outs) v2
