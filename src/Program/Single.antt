-- ===== src/Program/Single.antt =====
-- A single command does to the storage what its specification says.
use octet.Prelude.{
  ℕ, suc, ◌≡◌, refl, sym, subst, ◌∙◌, inl, inr, true, false, Option, none, some, List, [], ◌∷◌,
  arith, nat_eq, list_eq, list_beq, nat_beq, Option-cases, Bytes, codes, length,
}
use octet.Commands.Lines.{run_command-interactive_only}
use octet.Commands.Names.{unknown-usage, do_execute-unknown, command_text, find_command-text}
use octet.Program.{exit_code}
use octet.Disk.{Disk}
use octet.Storage
use octet.Storage.{Storage}
use octet.Storage.Contract.{view, insert-refines, update-refines, remove-refines}
use octet.Storage.Paths.{SameFiles, insert-SameFiles, update-SameFiles, remove-SameFiles}
use octet.Storage.Runs.{here}
use octet.Storage.Kept.{IsKept, IsSoundFor, Kept-IsKept, insert-Kept, update-Kept, remove-Kept}
use octet.Words.{join, merge_vector}
use octet.Commands.{
  failure, CommandName, insert, get, update, remove, snapshot, set_operations, set_minutes, leave,
  help, Draw, Outcome, find_command, args_count, only_for_interactive, printed, result_of, merged,
  execute, run_command, do_execute, execute_shot,
}
use octet.Commands.Spec.{
  is_usage, inserting, updating, removing, Meets, inserted, got, missing, updated, removed,
  not_written, refused,
}

pub too_many : (n : ℕ) → nat_beq (suc (suc n)) 1 ≡ false
too_many n = ground arith

-- What a command has done, and what it has kept.
abbrev pub Follows : List Bytes → Storage → Outcome → Type 0
Follows args s (result, line, s', d') =
    Meets args (view s) (exit_code result, line) (view s') × IsKept s' d' × SameFiles s' s

module _ (w : Draw) (s : Storage) (d : Disk) (sound : IsSoundFor w.answers w.new_uuid w.now)
    (h : IsKept s d) where
  unchanged : (args : List Bytes) → is_usage args ≡ false → Follows args s (failure, none, s, d)
  unfolding exit_code
  unchanged args e = (refused args (view s) e, h, (refl, refl))

  insert-Follows :
      (first : Bytes) (more : List Bytes)
      → let r = Storage.insert w.answers w.now w.new_uuid (join first more) s d in
        Follows (codes "insert" ∷ first ∷ more) s ((printed (r.0)).0, (printed (r.0)).1, r.1, r.2)
  unfolding exit_code
  insert-Follows first more =
      let text = join first more in
      let kept =
        Kept-IsKept (insert-Kept s d w.answers w.now w.new_uuid text s d sound (here, h.1)) h.0 in
      let files = insert-SameFiles w.answers w.now w.new_uuid text s d in
      elim (insert-refines w.answers w.now w.new_uuid text s d) [
        | inl (ok, new) ↦ (rw ok (rw new (inserted first more w.new_uuid (view s))), kept, files)
        | inr (bad, old) ↦ (
          rw bad (
              rw old (not_written (codes "insert" ∷ first ∷ more) (view s) (inserting first more))),
          kept,
          files,
        )
      ]

  update-Follows :
      (uuid first : Bytes) (more : List Bytes)
      → let r = Storage.update w.answers w.now uuid (join first more) s d in
        Follows (codes "update" ∷ uuid ∷ first ∷ more) s (result_of (r.0), none, r.1, r.2)
  unfolding exit_code
  update-Follows uuid first more =
      let text = join first more in
      let kept =
        Kept-IsKept (update-Kept s d w.answers w.now w.new_uuid uuid text s d sound (here, h.1))
          h.0 in
      let files = update-SameFiles w.answers w.now uuid text s d in
      elim (update-refines w.answers w.now uuid text s d) [
        | inl (ok, there, new) ↦
            (rw ok (rw new (updated uuid first more (view s) there)), kept, files)
        | inr (bad, old) ↦ (
          rw bad (
              rw old (
                not_written (codes "update" ∷ uuid ∷ first ∷ more) (view s)
                  (updating uuid first more))),
          kept,
          files,
        )
      ]

  remove-Follows :
      (uuid : Bytes)
      → let r = Storage.remove w.answers w.now uuid s d in
        Follows (codes "remove" ∷ uuid ∷ []) s (result_of (r.0), none, r.1, r.2)
  unfolding exit_code
  remove-Follows uuid =
      let kept =
        Kept-IsKept (remove-Kept s d w.answers w.now w.new_uuid uuid s d sound (here, h.1)) h.0 in
      let files = remove-SameFiles w.answers w.now uuid s d in
      elim (remove-refines w.answers w.now uuid s d) [
        | inl (ok, there, new) ↦ (rw ok (rw new (removed uuid (view s) there)), kept, files)
        | inr (bad, old) ↦ (
          rw bad (rw old (not_written (codes "remove" ∷ uuid ∷ []) (view s) (removing uuid))),
          kept,
          files,
        )
      ]

  found-Follows :
      (uuid : Bytes) (o : Option Bytes)
      → view s uuid ≡ o
      → Follows (codes "get" ∷ uuid ∷ []) s ((printed o).0, (printed o).1, s, d)
  unfolding exit_code
  found-Follows uuid none e = (missing uuid (view s) e, h, (refl, refl))
  found-Follows uuid (some text) e = (got uuid text (view s) e, h, (refl, refl))

  module _ (stoul : Bytes → Option ℕ) where
    only_interactive-Follows :
        (name : CommandName) (args : List Bytes)
        → is_usage (command_text name ∷ args) ≡ false
        → execute_shot stoul w (command_text name ∷ args) s d
          ≡ run_command stoul true w name args s d
        → only_for_interactive name ≡ true
        → Follows (command_text name ∷ args) s (execute_shot stoul w (command_text name ∷ args) s d)
    only_interactive-Follows name args unused found only =
        rw (found ∙ run_command-interactive_only stoul w name args s d only) (unchanged _ unused)

    -- A command that is in the table.
    pub named-Follows :
        (name : CommandName) (args : List Bytes)
        → Follows (command_text name ∷ args) s (execute_shot stoul w (command_text name ∷ args) s d)
    unfolding execute_shot do_execute run_command execute find_command merged list_beq merge_vector
        args_count only_for_interactive command_text is_usage
    named-Follows insert [] = unchanged _ refl
    named-Follows insert (first ∷ more) = insert-Follows first more
    named-Follows get [] = unchanged _ refl
    named-Follows get (uuid ∷ []) = found-Follows uuid (view s uuid) refl
    named-Follows get (uuid ∷ other ∷ more) =
        rw (too_many (length more)) (unchanged _ (rw (too_many (length more))))
    named-Follows update [] = unchanged _ refl
    named-Follows update (uuid ∷ []) = unchanged _ refl
    named-Follows update (uuid ∷ first ∷ more) = update-Follows uuid first more
    named-Follows remove [] = unchanged _ refl
    named-Follows remove (uuid ∷ []) = remove-Follows uuid
    named-Follows remove (uuid ∷ other ∷ more) =
        rw (too_many (length more)) (unchanged _ (rw (too_many (length more))))
    named-Follows snapshot args = only_interactive-Follows snapshot args refl refl refl
    named-Follows set_operations args = only_interactive-Follows set_operations args refl refl refl
    named-Follows set_minutes args = only_interactive-Follows set_minutes args refl refl refl
    named-Follows leave args = only_interactive-Follows leave args refl refl refl
    named-Follows help args = only_interactive-Follows help args refl refl refl

    pub shot-Follows : (args : List Bytes) → Follows args s (execute_shot stoul w args s d)
    shot-Follows [] = unfold execute_shot is_usage in unchanged [] refl
    shot-Follows (command ∷ args) = elim (Option-cases (find_command command)) [
      | inl unknown ↦
          let e : execute_shot stoul w (command ∷ args) s d ≡ (failure, none, s, d) =
            unfold execute_shot in do_execute-unknown stoul true w command args s d unknown in
          subst (Follows (command ∷ args) s) (sym e)
            (unchanged (command ∷ args) (unknown-usage command args unknown))
      | inr (name, found) ↦
          subst (λ c. Follows (c ∷ args) s (execute_shot stoul w (c ∷ args) s d))
            (sym (find_command-text command name found)) (named-Follows name args)
    ]
