-- ===== src/Connection/Requests.antt =====
-- What the server answers, on every branch of `handleRequest`.
use octet.Prelude.{
  ◌≡◌, refl, ◌⊎◌, inl, inr, Bool, true, false, Option, none, some, nat_eq, list_eq, if◌then◌else◌,
  has_value, Bytes, codes,
}
use octet.Disk.{Disk}
use octet.Storage
use octet.Storage.{Storage}
use octet.Protocol.{CommandType, Request, Response, insert, get, update, remove, ping, unknown}
use octet.Connection.{
  answer, failure, Draw, caught, inserted, found, handle_insert, handle_get, handle_update,
  handle_remove, handle_request,
}

-- An answer says either success, and then no error, or failure, and then an error and no result.
abbrev pub IsConsistent : Response → Type 0
IsConsistent r =
    (r.success ≡ true) × (r.error ≡ none)
    ⊎ (r.success ≡ false) × (has_value r.error ≡ true) × (r.uuid ≡ none) × (r.data' ≡ none)

abbrev pub IsAnswerTo : Bytes → Response → Type 0
IsAnswerTo id r = (r.request_id ≡ id) × IsConsistent r

inserted-ok : (id : Bytes) (o : Option Bytes) → IsAnswerTo id (inserted id o)
unfolding inserted
inserted-ok id none = (refl, inr (refl, refl, refl, refl))
inserted-ok id (some u) = (refl, inl (refl, refl))

found-ok : (id : Bytes) (o : Option Bytes) → IsAnswerTo id (found id o)
unfolding found
found-ok id none = (refl, inr (refl, refl, refl, refl))
found-ok id (some u) = (refl, inl (refl, refl))

result-ok :
    (id text : Bytes) (done : Bool) → IsAnswerTo id (if done then answer id else failure id text)
result-ok id text true = (refl, inl (refl, refl))
result-ok id text false = (refl, inr (refl, refl, refl, refl))

caught-ok :
    (o : Option (Bytes × Storage × Disk)) (id : Bytes) (result : Response × Storage × Disk)
    → IsAnswerTo id (result.0)
    → IsAnswerTo id (caught o id result).0
unfolding caught
caught-ok none id result h = h
caught-ok (some (what, s, d)) id result h = (refl, inr (refl, refl, refl, refl))

handle_insert-ok :
    (w : Draw) (id : Bytes) (o : Option Bytes) (s : Storage) (d : Disk)
    → IsAnswerTo id (handle_insert w id o s d).0
unfolding handle_insert
handle_insert-ok w id none s d = (refl, inr (refl, refl, refl, refl))
handle_insert-ok w id (some t) s d =
    caught-ok w.thrown id _ (inserted-ok id (Storage.insert w.answers w.now w.new_uuid t s d).0)

handle_get-ok :
    (w : Draw) (id : Bytes) (o : Option Bytes) (s : Storage) (d : Disk)
    → IsAnswerTo id (handle_get w id o s d).0
unfolding handle_get
handle_get-ok w id none s d = (refl, inr (refl, refl, refl, refl))
handle_get-ok w id (some u) s d = caught-ok w.thrown id _ (found-ok id (Storage.get u s))

handle_update-ok :
    (w : Draw) (id : Bytes) (u o : Option Bytes) (s : Storage) (d : Disk)
    → IsAnswerTo id (handle_update w id u o s d).0
unfolding handle_update
handle_update-ok w id none o s d = (refl, inr (refl, refl, refl, refl))
handle_update-ok w id (some u) none s d = (refl, inr (refl, refl, refl, refl))
handle_update-ok w id (some u) (some t) s d =
    caught-ok w.thrown id _
      (result-ok id (codes "Failed to update item") (Storage.update w.answers w.now u t s d).0)

handle_remove-ok :
    (w : Draw) (id : Bytes) (u : Option Bytes) (s : Storage) (d : Disk)
    → IsAnswerTo id (handle_remove w id u s d).0
unfolding handle_remove
handle_remove-ok w id none s d = (refl, inr (refl, refl, refl, refl))
handle_remove-ok w id (some u) s d =
    caught-ok w.thrown id _
      (result-ok id (codes "Failed to remove item") (Storage.remove w.answers w.now u s d).0)

by_command :
    (c : CommandType) (w : Draw) (id : Bytes) (u o : Option Bytes) (s : Storage) (d : Disk)
    → IsAnswerTo id
        (handle_request w (record { request_id = id; command = c; uuid = u; data' = o }) s d).0
unfolding handle_request
by_command insert w id u o s d = handle_insert-ok w id o s d
by_command get w id u o s d = handle_get-ok w id u s d
by_command update w id u o s d = handle_update-ok w id u o s d
by_command remove w id u o s d = handle_remove-ok w id u s d
by_command ping w id u o s d = (refl, inl (refl, refl))
by_command unknown w id u o s d = (refl, inr (refl, refl, refl, refl))

-- Every request, also one whose call of the storage throws, is answered under its own identifier,
-- with success and no error, or with failure, an error and no result.
pub handle_request-consistent :
    (w : Draw) (r : Request) (s : Storage) (d : Disk)
    → IsAnswerTo r.request_id (handle_request w r s d).0
handle_request-consistent w r s d = by_command r.command w r.request_id r.uuid r.data' s d
