-- ===== src/Journal/Effects.antt =====
-- What a run of journal entries does to the value at one key, and so what a replay does to a store.
use octet.Prelude.{
  ◌≡◌, refl, sym, ap, ◌∙◌, Option, none, some, List, [], ◌∷◌, ◌++◌, arith, ◌==◌, nat_eq, list_eq,
  list_beq_iff, if◌then◌else◌, Bytes,
}
use octet.Map.{find, find-assign, find-erase, SameMap}
use octet.Entry.{OperationType, insert, update, remove, checkpoint, JournalEntry}
use octet.Journal.{Store, apply_operation}
use octet.Journal.Text.{run_entries, run_entries-append}

-- The effect of some operations on one key.
pub data Effect : Type 0 where
  keep drop' : Effect
  put change : Bytes → Effect

unfoldable pub run : Effect → Option Bytes → Option Bytes
run keep o = o
run drop' o = none
run (put v) o = some v
run (change v) none = none
run (change v) (some _) = some v

effect_typed : OperationType → Bytes → Effect
effect_typed insert v = put v
effect_typed update v = change v
effect_typed remove v = drop'
effect_typed checkpoint v = keep

unfoldable pub effect_of : JournalEntry → Bytes → Effect
unfolding effect_typed
effect_of e k = if e.uuid == k then effect_typed e.type e.data' else keep

unfoldable pub and_then : Effect → Effect → Effect
and_then f keep = f
and_then f drop' = drop'
and_then f (put v) = put v
and_then keep (change v) = change v
and_then drop' (change v) = drop'
and_then (put w) (change v) = put v
and_then (change w) (change v) = change v

unfoldable pub effects : List JournalEntry → Bytes → Effect
effects [] k = keep
effects (e ∷ es) k = and_then (effect_of e k) (effects es k)

pub run-and_then : (f g : Effect) (o : Option Bytes) → run (and_then f g) o ≡ run g (run f o)
unfolding run and_then
run-and_then f keep o = refl
run-and_then f drop' o = refl
run-and_then f (put v) o = refl
run-and_then keep (change v) o = refl
run-and_then drop' (change v) o = refl
run-and_then (put w) (change v) o = refl
run-and_then (change w) (change v) none = refl
run-and_then (change w) (change v) (some x) = refl

-- Doing it twice is doing it once.
pub run-run : (f : Effect) (o : Option Bytes) → run f (run f o) ≡ run f o
unfolding run
run-run keep o = refl
run-run drop' o = refl
run-run (put v) o = refl
run-run (change v) none = refl
run-run (change v) (some x) = refl

-- The replay of every entry, in order.
abbrev pub apply_all : List JournalEntry → Store → Store
apply_all = run_entries (λ e s. (apply_operation e s).1)

find-apply_typed :
    (t : OperationType) (uuid v : Bytes) (s : Store) (ts : Bytes) (k : Bytes)
    → find k (apply_operation (record { type = t; uuid = uuid; data' = v; timestamp = ts }) s).1
      ≡ run (if uuid == k then effect_typed t v else keep) (find k s)
unfolding apply_operation run effect_typed
find-apply_typed insert uuid v s ts k = ground (arith, find-assign uuid k v s)
find-apply_typed update uuid v s ts k = ground (arith, find-assign uuid k v s, list_beq_iff uuid k)
find-apply_typed remove uuid v s ts k = ground (arith, find-erase uuid k s, list_beq_iff uuid k)
find-apply_typed checkpoint uuid v s ts k = ground arith

pub find-apply_operation :
    (e : JournalEntry) (s : Store) (k : Bytes)
    → find k (apply_operation e s).1 ≡ run (effect_of e k) (find k s)
unfolding effect_of
find-apply_operation e s k = find-apply_typed e.type e.uuid e.data' s e.timestamp k

pub find-apply_all :
    (es : List JournalEntry) (s : Store) (k : Bytes)
    → find k (apply_all es s) ≡ run (effects es k) (find k s)
unfolding run_entries effects
find-apply_all [] s k = unfold run in refl
find-apply_all (e ∷ es) s k =
    find-apply_all es (apply_operation e s).1 k
    ∙ ap (run (effects es k)) (find-apply_operation e s k)
    ∙ sym (run-and_then (effect_of e k) (effects es k) (find k s))

-- Replaying the end of a log over the state that the whole log has produced changes nothing that a
-- client can see.
pub replay_again :
    (es fs : List JournalEntry) (s : Store)
    → SameMap (apply_all fs (apply_all (es ++ fs) s)) (apply_all (es ++ fs) s)
replay_again es fs s k = rw (run_entries-append (λ e s. (apply_operation e s).1) es fs s) (
    find-apply_all fs _ k
    ∙ ap (run (effects fs k)) (find-apply_all fs _ k)
    ∙ run-run (effects fs k) _
    ∙ sym (find-apply_all fs _ k))

-- A replay sees no more of its start than a client does.
pub apply_all-SameMap :
    (es : List JournalEntry) (s t : Store) → SameMap s t → SameMap (apply_all es s) (apply_all es t)
apply_all-SameMap es s t h k =
    find-apply_all es s k ∙ ap (run (effects es k)) (h k) ∙ sym (find-apply_all es t k)
