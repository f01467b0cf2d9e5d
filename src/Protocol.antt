-- ===== src/Protocol.antt =====
-- app/cli/server/protocol.cpp: commands, requests, responses and frames. The JSON library is not part
-- of the project's own code: its operations are a parameter.
pub mod Frames
use octet.Prelude.{
  ℕ, zero, suc, ◌+◌, ◌-◌, ◌*◌, ◌/◌, ◌%◌, ◌^◌, ◌≤◌, ◌<◌, String, ◌≡◌, refl, sym, ap, ◌∙◌, fun_ext,
  ◌≢◌, ◌↔◌, ◌⊎◌, inl, inr, Bool, true, false, ◌&&◌, ◌||◌, not, Option, none, some, List, [], ◌∷◌,
  ◌++◌, append_assoc, append-nil, arith, Comparable, ◌==◌, nat_eq, list_eq, list_beq, list_beq_iff,
  beq_refl, beq_ne, ltb, leb, nat_beq, nat_beq_iff, if◌then◌else◌, has_value, Bool-cases,
  Option-cases, Bytes, codes, length, take, drop, length-append, take-length-append,
  drop-length-append, length-drop, All, All-append, Lacks,
}

pub data CommandType : Type 0 where
  insert get update remove ping unknown : CommandType

pub record Request : Type 0 where
  pub request_id : Bytes
  pub command : CommandType
  pub uuid : Option Bytes
  pub data' : Option Bytes

pub record Response : Type 0 where
  pub request_id : Bytes
  pub success : Bool
  pub uuid : Option Bytes
  pub data' : Option Bytes
  pub error : Option Bytes

unfoldable pub string_to_command : Bytes → CommandType
string_to_command cmd =
    if cmd == codes "insert"
    then insert
    else if cmd == codes "get"
    then get
    else if cmd == codes "update"
    then update
    else if cmd == codes "remove"
    then remove
    else if cmd == codes "ping"
    then ping
    else unknown

-- What the code uses of nlohmann::json. A call that throws returns `none`.
pub record JsonLibrary : Type 1 where
  pub Json : Type 0
  pub parse : Bytes → Option Json
  pub dump : Json → Option Bytes
  -- the member of an object; `none` where `contains` is false
  pub member : Bytes → Json → Option Json
  -- `get<std::string>()`
  pub as_string : Json → Option Bytes
  pub null : Json
  pub string : Bytes → Json
  pub boolean : Bool → Json
  pub object : List (Bytes × Json) → Json

infixl 5 ◌>>=◌
abbrev ◌>>=◌ : {A B : Type 0} → Option A → (A → Option B) → Option B
none >>= f = none
some a >>= f = f a

module _ (json : JsonLibrary) where
  -- A member that is there has to be a string; one that is missing stays unset.
  abbrev optional_string : Option json.Json → Option (Option Bytes)
  optional_string none = some none
  optional_string (some value) = do text ← json.as_string value; some (some text)

  unfoldable pub from_json : Bytes → Option Request
  unfolding string_to_command
  from_json json_str = do
    json_data ← json.parse json_str
    request_id_member ← json.member (codes "request_id") json_data
    command_member ← json.member (codes "command") json_data
    params ← json.member (codes "params") json_data
    request_id ← json.as_string request_id_member
    command ← json.as_string command_member
    uuid ← optional_string (json.member (codes "uuid") params)
    data' ← optional_string (json.member (codes "data") params)
    some (record {
      request_id = request_id;
      command = string_to_command command;
      uuid = uuid;
      data' = data';
    })

  abbrev string_member : Bytes → Option Bytes → List (Bytes × json.Json)
  string_member name none = []
  string_member name (some text) = (name, json.string text) ∷ []

  -- An object that nothing was stored in is still null.
  abbrev or_null : List (Bytes × json.Json) → json.Json
  or_null [] = json.null
  or_null (m ∷ ms) = json.object (m ∷ ms)

  -- `none` is the exception of `dump` on a text that is not UTF-8; nothing here catches it.
  unfoldable pub to_json : Response → Option Bytes
  to_json r = json.dump (
      json.object (
        (codes "request_id", json.string r.request_id)
        ∷ ((codes "success", json.boolean r.success)
            ∷ ((
              codes "params",
              or_null (string_member (codes "uuid") r.uuid ++ string_member (codes "data") r.data'),
            )
                ∷ string_member (codes "error") r.error))))

-- `encodeLength`: byte i is `(length >> 8 i) & 0xFF`.
unfoldable pub encode_length : ℕ → Bytes
encode_length length' =
    length' % 256
    ∷ (length' / 256 % 256)
    ∷ (length' / 65536 % 256)
    ∷ (length' / 16777216 % 256)
    ∷ []

-- `decodeLength` on the four bytes of the header: the bytes at their places do not overlap, so that
-- the `|=` of the loop adds.
unfoldable pub decode_length : ℕ → ℕ → ℕ → ℕ → ℕ
decode_length a b c e = a + b * 256 + c * 65536 + e * 16777216

-- The length is cast to `uint32_t`.
unfoldable pub wrap_message : Bytes → Bytes
unfolding encode_length
wrap_message json_message = encode_length (length json_message % 4294967296) ++ json_message

-- The message in front of the buffer and the bytes behind it. Until it is complete the buffer stays.
unfoldable pub extract_message : Bytes → Option Bytes × Bytes
extract_message (a ∷ b ∷ c ∷ e ∷ rest) =
    let message_length = decode_length a b c e in
    if ltb (length rest) message_length
    then (none, a ∷ b ∷ c ∷ e ∷ rest)
    else (some (take message_length rest), drop message_length rest)
extract_message buffer = (none, buffer)
