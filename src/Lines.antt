-- ===== src/Lines.antt =====
-- `readLineFromJournalContent` of src/storage/journal_manager.cpp, and the loop
-- `while (pos < journalContent.size())` around it, which four functions of the manager share.
-- The position is modelled by the text that still lies behind it.
use octet.Prelude.{
  ℕ, zero, suc, ◌≤◌, ◌≡◌, refl, ap, ◌∙◌, Option, none, some, [], ◌∷◌, ◌++◌, arith, ◌==◌, nat_eq,
  list_eq, if◌then◌else◌, Bytes, length, Lacks,
}
use octet.Escape.{newline}
use octet.Entry.{comment_char, StartsEntry}

-- The text before the first newline, and the text behind it. With no newline it is all the text.
line_end : Bytes → Bytes × Bytes
line_end [] = ([], [])
line_end (c ∷ content) =
    let rest = line_end content in if c == newline then ([], content) else (c ∷ rest.0, rest.1)

-- An empty line and a comment are skipped.
keep_line : Bytes → Option Bytes
keep_line [] = none
keep_line (c ∷ line) = if c == comment_char then none else some (c ∷ line)

unfoldable pub read_line : Bytes → Option Bytes × Bytes
unfolding line_end keep_line
read_line [] = (none, [])
read_line (c ∷ content) = let (line, rest) = line_end (c ∷ content) in (keep_line line, rest)

module _ {S : Type 0} (body : Bytes → S → S) where
  abbrev on_line : Option Bytes → S → S
  on_line none s = s
  on_line (some line) s = body line s

  line_loop : ℕ → Bytes → S → S
  line_loop zero content s = s
  line_loop (suc fuel) [] s = s
  line_loop (suc fuel) (c ∷ content) s =
      let (line, rest) = read_line (c ∷ content) in line_loop fuel rest (on_line line s)

  -- One round for each byte is enough: a line takes at least its newline.
  unfoldable pub each_line : Bytes → S → S
  unfolding line_loop
  each_line content s = line_loop (length content) content s

line_end-shorter : (c : ℕ) (content : Bytes) → length (line_end (c ∷ content)).1 ≤ length content
unfolding line_end
line_end-shorter c [] = ground arith
line_end-shorter c (d ∷ content) = ground (arith, line_end-shorter d content)

read_line-shorter : (c : ℕ) (content : Bytes) → length (read_line (c ∷ content)).1 ≤ length content
unfolding read_line
read_line-shorter c content = line_end-shorter c content

line_end-append :
    (line rest : Bytes) → Lacks newline line → line_end (line ++ newline ∷ rest) ≡ (line, rest)
unfolding line_end
line_end-append [] rest h = refl
line_end-append (c ∷ line) rest h = ground (arith, line_end-append line rest h.1)

read_line_entry :
    (line rest : Bytes)
    → Lacks newline line
    → StartsEntry line
    → read_line (line ++ newline ∷ rest) ≡ (some line, rest)
unfolding read_line
read_line_entry [] rest h start = absurd start
read_line_entry (c ∷ line) rest h start = rw (line_end-append (c ∷ line) rest h) (ground arith)

read_line_comment :
    (line rest : Bytes)
    → Lacks newline line
    → read_line (comment_char ∷ line ++ newline ∷ rest) ≡ (none, rest)
unfolding read_line
read_line_comment line rest h = rw (line_end-append line rest h)

read_line_blank : (rest : Bytes) → read_line (newline ∷ rest) ≡ (none, rest)
unfolding read_line
read_line_blank rest = refl

module _ {S : Type 0} (body : Bytes → S → S) where
  line_loop_enough :
      (f g : ℕ) (content : Bytes) (s : S)
      → length content ≤ f
      → length content ≤ g
      → line_loop body f content s ≡ line_loop body g content s
  unfolding line_loop
  line_loop_enough zero zero content s hf hg = refl
  line_loop_enough zero (suc g) [] s hf hg = refl
  line_loop_enough zero (suc g) (c ∷ content) s hf hg = absurd (omega arith)
  line_loop_enough (suc f) zero [] s hf hg = refl
  line_loop_enough (suc f) zero (c ∷ content) s hf hg = absurd (omega arith)
  line_loop_enough (suc f) (suc g) [] s hf hg = refl
  line_loop_enough (suc f) (suc g) (c ∷ content) s hf hg =
      line_loop_enough f g (read_line (c ∷ content)).1 (on_line body (read_line (c ∷ content)).0 s)
        (omega (arith, read_line-shorter c content)) (omega (arith, read_line-shorter c content))

  -- The loop reads one line, then goes on from the text behind it.
  each_line_round :
      (c : ℕ) (content : Bytes) (s : S)
      → each_line body (c ∷ content) s
        ≡ each_line body (read_line (c ∷ content)).1 (on_line body (read_line (c ∷ content)).0 s)
  unfolding each_line line_loop
  each_line_round c content s =
      line_loop_enough (length content) _ (read_line (c ∷ content)).1 _
        (read_line-shorter c content) (omega arith)

  each_line_step :
      (c : ℕ) (content rest : Bytes) (line : Option Bytes) (s : S)
      → read_line (c ∷ content) ≡ (line, rest)
      → each_line body (c ∷ content) s ≡ each_line body rest (on_line body line s)
  each_line_step c content rest line s h =
      each_line_round c content s
      ∙ ap (λ (p : Option Bytes × Bytes). each_line body p.1 (on_line body p.0 s)) h

  -- A written line hands its text to the body.
  pub each_line_entry :
      (line rest : Bytes) (s : S)
      → Lacks newline line
      → StartsEntry line
      → each_line body (line ++ newline ∷ rest) s ≡ each_line body rest (body line s)
  each_line_entry [] rest s h start = absurd start
  each_line_entry (c ∷ line) rest s h start =
      each_line_step c (line ++ newline ∷ rest) rest (some (c ∷ line)) s
        (read_line_entry (c ∷ line) rest h start)

  pub each_line_comment :
      (line rest : Bytes) (s : S)
      → Lacks newline line
      → each_line body (comment_char ∷ line ++ newline ∷ rest) s ≡ each_line body rest s
  each_line_comment line rest s h =
      each_line_step comment_char (line ++ newline ∷ rest) rest none s
        (read_line_comment line rest h)

  pub each_line_blank :
      (rest : Bytes) (s : S) → each_line body (newline ∷ rest) s ≡ each_line body rest s
  each_line_blank rest s = each_line_step newline rest rest none s (read_line_blank rest)

  pub each_line_nil : (s : S) → each_line body [] s ≡ s
  unfolding each_line line_loop
  each_line_nil s = refl
