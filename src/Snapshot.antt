-- ===== src/Snapshot.antt =====
-- `serializeMap` and `deserializeMap` of src/storage/storage_manager.cpp: the snapshot file. A
-- 32-bit number is its four bytes, the lowest first, as the machines of the project store it.
use octet.Prelude.{
  ℕ, zero, suc, ◌+◌, ◌*◌, ◌/◌, ◌%◌, ◌<◌, ◌≡◌, refl, ap, ◌∙◌, Option, none, some, [], ◌∷◌, ◌++◌,
  arith, nat_eq, list_eq, ltb, if◌then◌else◌, has_value, Bytes, length, take, drop, length-append,
  take-length-append, drop-length-append, All,
}
use octet.Map.{emplace, find, find-emplace, SameMap}
use octet.Journal.{Store}

-- `static_cast<uint32_t>` drops what stands above 32 bits.
unfoldable pub u32_append : ℕ → Bytes
u32_append x = x % 256 ∷ (x / 256 % 256) ∷ (x / 65536 % 256) ∷ (x / 16777216 % 256) ∷ []

serialize_pairs : Store → Bytes
serialize_pairs [] = []
serialize_pairs ((k, v) ∷ map) =
    u32_append (length k) ++ (k ++ (u32_append (length v) ++ (v ++ serialize_pairs map)))

unfoldable pub serialize_map : Store → Bytes
unfolding serialize_pairs u32_append
serialize_map map = u32_append (length map) ++ serialize_pairs map

infixl 5 ◌>>=◌
abbrev ◌>>=◌ : {A B : Type 0} → Option A → (A → Option B) → Option B
none >>= f = none
some a >>= f = f a

-- The number at the pointer and what lies behind it, if four bytes are left.
read_size : Bytes → Option (ℕ × Bytes)
read_size (a ∷ b ∷ c ∷ e ∷ ptr) = some (a + 256 * b + 65536 * c + 16777216 * e, ptr)
read_size _ = none

read_string : ℕ → Bytes → Option (Bytes × Bytes)
read_string len ptr = if ltb (length ptr) len then none else some (take len ptr, drop len ptr)

read_field : Bytes → Option (Bytes × Bytes)
read_field buf = do sized ← read_size buf; read_string sized.0 sized.1

-- One round for each pair that is announced.
read_pairs : ℕ → Bytes → Store → Option Store
read_pairs zero ptr map = some map
read_pairs (suc n) ptr map = do
  key ← read_field ptr
  value ← read_field key.1
  read_pairs n value.1 (emplace key.0 value.0 map)

unfoldable pub deserialize_map : Bytes → Option Store
unfolding read_pairs read_field read_size read_string
deserialize_map buf = do count ← read_size buf; read_pairs count.0 count.1 []

abbrev pub u32_limit : ℕ
u32_limit = 4294967296

-- What the four bytes can say of a map: the number of its pairs and the lengths of its texts.
abbrev FitsPairs : Store → Type 0
FitsPairs = All (λ kv. (length kv.0 < u32_limit) × (length kv.1 < u32_limit))

pub record Fits (map : Store) : Type 0 where
  pub count : length map < u32_limit
  pub pairs : FitsPairs map

read_size-u32_append :
    (x : ℕ) (rest : Bytes) → x < u32_limit → read_size (u32_append x ++ rest) ≡ some (x, rest)
unfolding read_size u32_append
read_size-u32_append x rest h = ap (λ n. some (n, rest)) (omega arith)

read_string-append : (s rest : Bytes) → read_string (length s) (s ++ rest) ≡ some (s, rest)
unfolding read_string
read_string-append s rest =
    rw (take-length-append s rest, drop-length-append s rest) (ground (arith, length-append s rest))

read_field-append :
    (s rest : Bytes)
    → length s < u32_limit
    → read_field (u32_append (length s) ++ (s ++ rest)) ≡ some (s, rest)
unfolding read_field
read_field-append s rest h =
    rw (read_size-u32_append (length s) (s ++ rest) h) (read_string-append s rest)

emplace_all : Store → Store → Store
emplace_all [] acc = acc
emplace_all ((k, v) ∷ map) acc = emplace_all map (emplace k v acc)

read_pairs-serialize_pairs :
    (map acc : Store)
    → FitsPairs map
    → read_pairs (length map) (serialize_pairs map) acc ≡ some (emplace_all map acc)
unfolding read_pairs serialize_pairs emplace_all
read_pairs-serialize_pairs [] acc h = refl
read_pairs-serialize_pairs ((k, v) ∷ map) acc ((hk, hv), hs) = rw (read_field-append k _ hk) (
    rw (read_field-append v (serialize_pairs map) hv)
      (read_pairs-serialize_pairs map (emplace k v acc) hs))

find-emplace_all :
    (map acc : Store) (j : Bytes)
    → find j (emplace_all map acc) ≡ (if has_value (find j acc) then find j acc else find j map)
unfolding emplace_all find
find-emplace_all [] acc j = ground arith
find-emplace_all ((k, v) ∷ map) acc j =
    ground (arith, find-emplace_all map (emplace k v acc) j, find-emplace k j v acc)

deserialize_map_all :
    (map : Store) → Fits map → deserialize_map (serialize_map map) ≡ some (emplace_all map [])
unfolding deserialize_map serialize_map
deserialize_map_all map h =
    ap (λ (o : Option (ℕ × Bytes)). o >>= λ count. read_pairs count.0 count.1 [])
      (read_size-u32_append (length map) (serialize_pairs map) h.count)
    ∙ read_pairs-serialize_pairs map [] h.pairs

-- The bytes of a map whose counts and lengths fit in 32 bits are read back as a map with the same
-- value at every key.
pub deserialize_map-serialize_map :
    (map : Store)
    → Fits map
    → (back : Store) × (deserialize_map (serialize_map map) ≡ some back) × SameMap back map
unfolding find
deserialize_map-serialize_map map h =
    (emplace_all map [], deserialize_map_all map h, λ j. find-emplace_all map [] j)
