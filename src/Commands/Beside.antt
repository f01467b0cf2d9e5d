-- ===== src/Commands/Beside.antt =====
-- The interactive mode with the storage's thread beside it: lines and rounds in any order.
use octet.Prelude.{
  ℕ, suc, ◌≡◌, refl, ◌∙◌, inl, inr, Option, none, some, List, [], ◌∷◌, nat_eq, list_eq,
  if◌then◌else◌, Bool-cases, Bytes,
}
use octet.Disk.{Disk}
use octet.Storage.{Storage}
use octet.Storage.Lifecycle.{Round, snapshot_round}
use octet.Help.{greeting}
use octet.Commands.{Draw, run_line, run_interactive_mode}

-- The user enters a line, or the wait of the storage's thread ends.
pub data Event : Type 0 where
  entered : Draw → Bytes → Event
  rounded : Round → Event

-- What a line prints is put before what the later ones print.
abbrev pub Session : Type 0
Session = ℕ × List Bytes × Storage × Disk

abbrev pub after_line : Option Bytes → Session → Session
after_line none session = session
after_line (some line) (code, lines, s, d) = (code, line ∷ lines, s, d)

module _ (stoul : Bytes → Option ℕ) where
  -- The code, the printed lines and the state, when the input has ended or a command has.
  unfoldable pub run_beside : List Event → Storage → Disk → Session
  unfolding run_line snapshot_round
  run_beside [] s d = (1, [], s, d)
  run_beside (entered w input ∷ events) s d =
      let (ends, line, s', d') = run_line stoul w input s d in
      let rest = run_beside events s' d' in after_line line (if ends then (0, [], s', d') else rest)
  run_beside (rounded r ∷ events) s d =
      let (s', d') = snapshot_round r s d in run_beside events s' d'

  -- The whole of the interactive mode: the greeting, and the loop.
  unfoldable pub run_session : List Event → Storage → Disk → Session
  unfolding run_beside
  run_session events s d =
      let (code, lines, s', d') = run_beside events s d in (code, greeting ∷ lines, s', d')

  abbrev pub without_lines : Session → ℕ × Storage × Disk
  without_lines (code, lines, s, d) = (code, s, d)

  after_line-without :
      (line : Option Bytes) (session : Session)
      → without_lines (after_line line session) ≡ without_lines session
  after_line-without none session = refl
  after_line-without (some line) session = refl

  abbrev pub only_lines : (ℕ → Draw) → List Bytes → List Event
  only_lines w [] = []
  only_lines w (input ∷ inputs) = entered (w 0) input ∷ only_lines (λ n. w (suc n)) inputs

  -- With no round between the lines it is the loop alone.
  pub run_beside-lines :
      (w : ℕ → Draw) (inputs : List Bytes) (s : Storage) (d : Disk)
      → without_lines (run_beside (only_lines w inputs) s d)
        ≡ run_interactive_mode stoul w inputs s d
  unfolding run_beside run_interactive_mode
  run_beside-lines w [] s d = refl
  run_beside-lines w (input ∷ inputs) s d =
      let (ends, line, s', d') = run_line stoul (w 0) input s d in
      let rest = run_beside-lines (λ n. w (suc n)) inputs s' d' in
      elim (Bool-cases ends) [
        | inl over ↦ after_line-without line _ ∙ rw over
        | inr goes_on ↦ after_line-without line _ ∙ rw goes_on rest
      ]
