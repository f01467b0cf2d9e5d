-- ===== src/Journal/Text.antt =====
-- A journal file as its writer leaves it, and what the loops over its lines make of it.
use octet.Prelude.{
  ◌≡◌, refl, ◌∙◌, List, [], ◌∷◌, ◌++◌, append_assoc, append-nil, arith, nat_eq, list_eq, Bytes,
  codes, All,
}
use octet.Escape.{newline}
use octet.Entry.{
  JournalEntry, serialize, deserialize, line_of, IsPlain, serialize-line_of, deserialize-line_of,
  line_of-Lacks, line_of-StartsEntry,
}
use octet.Lines.{each_line, each_line_entry, each_line_comment, each_line_nil}
use octet.Journal.{journal_header, on_entry}

unfoldable pub entries_text : List JournalEntry → Bytes
entries_text [] = []
entries_text (e ∷ es) = serialize e ++ entries_text es

-- The file after these entries have been appended to a new journal.
abbrev pub journal_text : List JournalEntry → Bytes
journal_text es = journal_header ++ entries_text es

pub entries_text-append :
    (es : List JournalEntry) (e : JournalEntry)
    → entries_text (es ++ e ∷ []) ≡ entries_text es ++ serialize e
unfolding entries_text
entries_text-append [] e = append-nil (serialize e)
entries_text-append (f ∷ es) e = simp (entries_text-append es e, append_assoc)

-- A fold in the order of a loop.
unfoldable pub run_entries {ℓ} : {S : Type ℓ} → (JournalEntry → S → S) → List JournalEntry → S → S
run_entries body [] s = s
run_entries body (e ∷ es) s = run_entries body es (body e s)

pub run_entries-append {ℓ} :
    {S : Type ℓ} (body : JournalEntry → S → S) (es fs : List JournalEntry) (s : S)
    → run_entries body (es ++ fs) s ≡ run_entries body fs (run_entries body es s)
unfolding run_entries
run_entries-append body [] fs s = refl
run_entries-append body (e ∷ es) fs s = run_entries-append body es fs (body e s)

module _ {S : Type 0} (now : Bytes) (body : JournalEntry → S → S) where
  abbrev by_line : Bytes → S → S
  by_line line s = on_entry body (deserialize now line) s

  each_line-entries_text :
      (es : List JournalEntry) (s : S)
      → All IsPlain es
      → each_line by_line (entries_text es) s ≡ run_entries body es s
  unfolding entries_text run_entries
  each_line-entries_text [] s h = each_line_nil by_line s
  each_line-entries_text (e ∷ es) s (h, hs) =
      rw (serialize-line_of e, append_assoc (line_of e) (newline ∷ []) (entries_text es))
        (each_line_entry by_line (line_of e) (entries_text es) s (line_of-Lacks e h)
            (line_of-StartsEntry e)
          ∙ rw (deserialize-line_of now e h) (each_line-entries_text es (body e s) hs))

  -- A loop over the lines of a journal of plain entries is the loop over the entries.
  pub each_line-journal_text :
      (es : List JournalEntry) (s : S)
      → All IsPlain es
      → each_line by_line (journal_text es) s ≡ run_entries body es s
  each_line-journal_text es s h =
      each_line_comment by_line (codes " OCTET Journal Format v1.0") (entries_text es) s
        (omega arith)
      ∙ each_line-entries_text es s h
