-- ===== src/Program/Beside.antt =====
-- A whole session, with the rounds of the storage's thread between its lines, against its specification.
use octet.Prelude.{
  ℕ, ◌≡◌, refl, subst, ◌∙◌, Bool, true, false, Option, none, some, List, [], ◌∷◌, nat_eq, list_eq,
  if◌then◌else◌, Bytes,
}
use octet.Disk.{Disk}
use octet.Storage.{Storage}
use octet.Storage.Contract.{view}
use octet.Storage.Lifecycle.{snapshot_round, IsSoundRound, snapshot_round-IsDurable}
use octet.Storage.Unchanged.{snapshot_round-IsSame}
use octet.Storage.Paths.{SameFiles}
use octet.Storage.Kept.{IsKept, same-IsKeyed}
use octet.Words.{parse_input}
use octet.Commands.{run_line}
use octet.Commands.Beside.{Event, entered, rounded, Session, after_line, run_beside, run_session}
use octet.Help.{greeting}
use octet.Commands.Spec.{texts, MeetsSession, input_ended, user_left, line_done}
use octet.Program.Interactive.{words_of, LineFollows, IsSoundLine, run_line-LineFollows}

-- The words of the lines; the rounds are not to be seen.
abbrev pub entered_words : List Event → List (List Bytes)
entered_words [] = []
entered_words (entered w input ∷ events) = words_of (parse_input input) ∷ entered_words events
entered_words (rounded r ∷ events) = entered_words events

-- What a session has done, and what it has kept.
abbrev pub SessionFollows : List (List Bytes) → Storage → Session → Type 0
SessionFollows more s (code, lines, s', d') =
    MeetsSession more (view s) (code, lines) (view s') × IsKept s' d' × SameFiles s' s

abbrev pub IfNot : Bool → Type 0 → Type 0
IfNot true A = Unit
IfNot false A = A

pub IfNot-map : {A B : Type 0} (b : Bool) → (A → B) → IfNot b A → IfNot b B
IfNot-map true f x = x
IfNot-map false f x = f x

module _ (stoul : Bytes → Option ℕ) where
  -- Each line and each round draws sound answers, as long as the session lasts.
  unfoldable pub SoundEvents : List Event → Storage → Disk → Type 0
  SoundEvents [] s d = Unit
  SoundEvents (entered w input ∷ events) s d =
      let (ends, line, s', d') = run_line stoul w input s d in
      IsSoundLine w s × IfNot ends (SoundEvents events s' d')
  SoundEvents (rounded r ∷ events) s d =
      let (s', d') = snapshot_round r s d in IsSoundRound r s × SoundEvents events s' d'

  after_line-texts :
      (line : Option Bytes) (code : ℕ) (lines : List Bytes) (s : Storage) (d : Disk)
      → after_line line (code, lines, s, d) ≡ (code, texts line lines, s, d)
  after_line-texts none code lines s d = refl
  after_line-texts (some line) code lines s d = refl

  ended :
      (words : List Bytes) (more : List (List Bytes)) (s : Storage) (line : Option Bytes)
      (s' : Storage) (d' : Disk)
      → LineFollows words s (true, line, s', d')
      → SessionFollows (words ∷ more) s (after_line line (0, [], s', d'))
  ended words more s line s' d' (meets, kept, files) =
      rw (after_line-texts line 0 [] s' d') (user_left meets, kept, files)

  went_on :
      (words : List Bytes) (more : List (List Bytes)) (s : Storage) (line : Option Bytes)
      (s' : Storage) (d' : Disk) (rest : Session)
      → LineFollows words s (false, line, s', d')
      → SessionFollows more s' rest
      → SessionFollows (words ∷ more) s (after_line line rest)
  went_on words more s line s' d' (code, lines, s2, d2) (meets, kept, (journal, snapshot)) follows =
      let (meets', kept', (journal', snapshot')) = follows in
      rw (after_line-texts line code lines s2 d2)
        (line_done meets meets', kept', (journal' ∙ journal, snapshot' ∙ snapshot))

  one_line :
      (ends : Bool) (words : List Bytes) (more : List (List Bytes)) (s : Storage)
      (line : Option Bytes) (s' : Storage) (d' : Disk) (rest : Session)
      → LineFollows words s (ends, line, s', d')
      → IfNot ends (SessionFollows more s' rest)
      → SessionFollows (words ∷ more) s (after_line line (if ends then (0, [], s', d') else rest))
  one_line true words more s line s' d' rest follows _ = ended words more s line s' d' follows
  one_line false words more s line s' d' rest follows later =
      went_on words more s line s' d' rest follows later

  pub run_beside-meets :
      (events : List Event) (s : Storage) (d : Disk)
      → IsKept s d
      → SoundEvents events s d
      → SessionFollows (entered_words events) s (run_beside stoul events s d)
  unfolding run_beside SoundEvents
  run_beside-meets [] s d h sound = (input_ended (view s), h, (refl, refl))
  run_beside-meets (entered w input ∷ events) s d h (sound, later) =
      let (ends, line, s', d') = run_line stoul w input s d in
      let follows = run_line-LineFollows w s d sound h stoul input in
      one_line ends _ _ s line s' d' _ follows
        (IfNot-map ends (λ sound'. run_beside-meets events s' d' (follows.1) sound') later)
  run_beside-meets (rounded r ∷ events) s d h (sound, later) =
      let (s', d') = snapshot_round r s d in
      let (seen, journal, snapshot) = snapshot_round-IsSame r s d in
      let kept : IsKept s' d' =
        (snapshot_round-IsDurable r s d sound (h.0), same-IsKeyed seen (h.1)) in
      let (code, lines, s2, _) = run_beside stoul events s' d' in
      let (meets, kept', (journal', snapshot')) = run_beside-meets events s' d' kept later in
      (
        subst (λ v. MeetsSession (entered_words events) v (code, lines) (view s2)) seen meets,
        kept',
        (journal' ∙ journal, snapshot' ∙ snapshot),
      )

  -- The greeting, and then what the lines print.
  abbrev pub Greeted : List (List Bytes) → Storage → Session → Type 0
  Greeted more s r =
      (rest : List Bytes) × (r.1 ≡ greeting ∷ rest)
      × MeetsSession more (view s) (r.0, rest) (view (r.2))
      × IsKept (r.2) (r.3)
      × SameFiles (r.2) s

  -- Whatever lines a user enters in a session and whatever rounds the storage's thread makes
  -- between them, the session prints its greeting and then meets a specification that knows only
  -- the words of the lines: each line prints and changes what its specification says, a command
  -- `exit` prints the farewell and ends the session with code 0, the end of the input ends it with
  -- code 1, and the rounds are not to be seen; memory and disk agree at the end, in the same
  -- files. Printed are the texts of the level IMPORTANT. Conditions: memory and disk agree at the
  -- start and the journal can hold the identifiers; a round does not come inside a line's command;
  -- as long as the session lasts no write is partial, renames and directory synchronisations
  -- succeed, generated identifiers and clock texts can stand in the journal, and the store fits in
  -- 32-bit counts.
  pub run_session-meets :
      (events : List Event) (s : Storage) (d : Disk)
      → IsKept s d
      → SoundEvents events s d
      → Greeted (entered_words events) s (run_session stoul events s d)
  unfolding run_session
  run_session-meets events s d h sound =
      let follows = run_beside-meets events s d h sound in
      ((run_beside stoul events s d).1, refl, follows.0, follows.1, follows.2)
