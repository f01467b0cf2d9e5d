-- ===== src/Entry.antt =====
-- `OperationType` and `JournalEntry` of src/storage/journal_manager.cpp and
-- include/storage/journal_manager.hpp. The clock is a parameter: `now` is the text that
-- `getCurrentIsoTimestamp` returns.
use octet.Prelude.{
  ℕ, ◌≡◌, refl, ap, ◌≢◌, Option, none, some, List, [], ◌∷◌, ◌++◌, append_assoc, arith, ◌==◌, nat_eq,
  list_eq, list_beq, beq_ne, if◌then◌else◌, Bytes, codes, All-append, Lacks,
}
use octet.Escape.{
  field_separator, newline, escape_string, unescape_string, unescape_string-escape_string,
  escape_string-Lacks,
}

pub data OperationType : Type 0 where
  insert update remove checkpoint : OperationType

pub record JournalEntry : Type 0 where
  pub type : OperationType
  pub uuid : Bytes
  pub data' : Bytes
  pub timestamp : Bytes

-- The constructor: an empty timestamp becomes the current time.
unfoldable pub journal_entry : Bytes → OperationType → Bytes → Bytes → Bytes → JournalEntry
journal_entry now type uuid data' timestamp = record {
  type = type;
  uuid = uuid;
  data' = data';
  timestamp = if timestamp == [] then now else timestamp;
}

unfoldable pub operation_type_to_string : OperationType → Bytes
operation_type_to_string insert = codes "INSERT"
operation_type_to_string update = codes "UPDATE"
operation_type_to_string remove = codes "REMOVE"
operation_type_to_string checkpoint = codes "CHECKPOINT"

-- The table `OPERATION_TYPE_STRINGS`, in the order of the enumeration, searched from the front.
search_type : List OperationType → Bytes → Option OperationType
unfolding operation_type_to_string
search_type [] type_str = none
search_type (t ∷ ts) type_str =
    if type_str == operation_type_to_string t then some t else search_type ts type_str

unfoldable pub string_to_operation_type : Bytes → Option OperationType
unfolding search_type
string_to_operation_type type_str =
    search_type (insert ∷ update ∷ remove ∷ checkpoint ∷ []) type_str

unfoldable pub serialize : JournalEntry → Bytes
serialize e =
    operation_type_to_string e.type
    ++ (field_separator ∷ e.uuid
        ++ (field_separator ∷ e.timestamp
            ++ (field_separator ∷ escape_string e.data' ++ newline ∷ [])))

-- The text up to the first separator and the text behind it: one separator that the loop finds.
unfoldable pub cut : Bytes → Option (Bytes × Bytes)
cut [] = none
cut (c ∷ line) =
    let rest = cut line in
    if c == field_separator
    then some ([], line)
    else elim rest [ none ↦ none | some (field, tail) ↦ some (c ∷ field, tail) ]

infixl 5 ◌>>=◌
abbrev ◌>>=◌ : {A B : Type 0} → Option A → (A → Option B) → Option B
none >>= f = none
some a >>= f = f a

unfoldable pub deserialize : Bytes → Bytes → Option JournalEntry
unfolding cut string_to_operation_type journal_entry
deserialize now line = do
  typed ← cut line
  with_uuid ← cut typed.1
  stamped ← cut with_uuid.1
  type ← string_to_operation_type typed.0
  some (journal_entry now type with_uuid.0 (unescape_string stamped.1) stamped.0)

-- What the writer has to keep to: the fields that are written as they are hold no separator and no
-- newline, and there is a timestamp.
pub record IsPlain (e : JournalEntry) : Type 0 where
  pub uuid_field : Lacks field_separator e.uuid
  pub uuid_line : Lacks newline e.uuid
  pub stamp_field : Lacks field_separator e.timestamp
  pub stamp_line : Lacks newline e.timestamp
  pub stamp_some : e.timestamp ≢ []

-- The line that `serialize` writes, without the newline at its end.
unfoldable pub line_of : JournalEntry → Bytes
line_of e =
    operation_type_to_string e.type
    ++ (field_separator ∷ e.uuid
        ++ (field_separator ∷ e.timestamp ++ (field_separator ∷ escape_string e.data')))

pub serialize-line_of : (e : JournalEntry) → serialize e ≡ line_of e ++ newline ∷ []
unfolding serialize line_of
serialize-line_of e = simp append_assoc

cut-append :
    (field rest : Bytes)
    → Lacks field_separator field
    → cut (field ++ field_separator ∷ rest) ≡ some (field, rest)
unfolding cut
cut-append [] rest h = refl
cut-append (c ∷ field) rest h = ground (arith, cut-append field rest h.1)

type-Lacks :
    (t : OperationType)
    → Lacks field_separator (operation_type_to_string t)
      × Lacks newline (operation_type_to_string t)
unfolding operation_type_to_string
type-Lacks insert = omega arith
type-Lacks update = omega arith
type-Lacks remove = omega arith
type-Lacks checkpoint = omega arith

pub string_to_operation_type-operation_type_to_string :
    (t : OperationType) → string_to_operation_type (operation_type_to_string t) ≡ some t
unfolding string_to_operation_type list_beq
string_to_operation_type-operation_type_to_string insert = refl
string_to_operation_type-operation_type_to_string update = refl
string_to_operation_type-operation_type_to_string remove = refl
string_to_operation_type-operation_type_to_string checkpoint = refl

journal_entry-stamped :
    (now : Bytes) (e : JournalEntry)
    → e.timestamp ≢ []
    → journal_entry now e.type e.uuid e.data' e.timestamp ≡ e
unfolding journal_entry
journal_entry-stamped now e h = rw (beq_ne e.timestamp [] h)

-- The line that is written for a plain entry is read back as that entry, at any later time.
pub deserialize-line_of :
    (now : Bytes) (e : JournalEntry) → IsPlain e → deserialize now (line_of e) ≡ some e
unfolding deserialize line_of
deserialize-line_of now e h =
    rw (cut-append (operation_type_to_string e.type) _ (type-Lacks e.type).0) (
      rw (cut-append e.uuid _ h.uuid_field) (
        rw (cut-append e.timestamp _ h.stamp_field) (
          rw (string_to_operation_type-operation_type_to_string, unescape_string-escape_string)
            (ap some (journal_entry-stamped now e h.stamp_some)))))

-- A written line holds no newline, is not empty and does not look like a comment.
pub line_of-Lacks : (e : JournalEntry) → IsPlain e → Lacks newline (line_of e)
unfolding line_of
line_of-Lacks e h =
    let (data_line, _) = escape_string-Lacks e.data' in
    All-append _ (operation_type_to_string e.type) _ (type-Lacks e.type).1 (
      (
        omega arith,
        All-append _ e.uuid _ h.uuid_line
            ((omega arith, All-append _ e.timestamp _ h.stamp_line (omega arith, data_line))),
      ))

-- The byte that opens a comment.
abbrev pub comment_char : ℕ
comment_char = b'#'

abbrev pub StartsEntry : Bytes → Type 0
StartsEntry [] = ⊥
StartsEntry (c ∷ line) = c ≢ comment_char

type-StartsEntry :
    (t : OperationType) (rest : Bytes) → StartsEntry (operation_type_to_string t ++ rest)
unfolding operation_type_to_string
type-StartsEntry insert rest = omega arith
type-StartsEntry update rest = omega arith
type-StartsEntry remove rest = omega arith
type-StartsEntry checkpoint rest = omega arith

pub line_of-StartsEntry : (e : JournalEntry) → StartsEntry (line_of e)
unfolding line_of
line_of-StartsEntry e = type-StartsEntry e.type _
