-- ===== src/Depot/Store.antt =====
-- internal/depot/objectstore_v2.go: the primitives that depot code has, over the local filesystem
-- store. An Archive is what its keys hold. Between two primitive calls of one process other processes
-- may act, and each call may fail: a list of events says what happens at each call.
pub mod Laws
pub mod Keeps
pub mod Quiet
pub mod Steps
pub mod Reads
pub mod Costs
pub mod Atomic
use aha.Prelude.{
  Bool, true, false, List, [], ◌∷◌, Option, none, some, Result, ok, err, if◌then◌else◌, ◌≡◌,
}
use aha.Text.{Bytes, text_eq}
use aha.Encoding.Hex

abbrev pub Objects : Type 0
Objects = Bytes → Option Bytes

unfoldable pub write : Objects → Bytes → Bytes → Objects
write o key b k = if text_eq key k then some b else o k

-- What other processes did before a call, and whether the call then fails with an I/O error or finds
-- its context cancelled.
pub record Event : Type 0 where
  pub change : Objects → Objects
  pub fails : Bool

pub record World : Type 0 where
  pub objects : Objects
  pub events : List Event

pub data DepotError : Type 0 where
  object_not_exist precondition_failed io_failed : DepotError
  contention : Bytes → DepotError
  stale_publication : Bytes → DepotError
  corrupt_object : Bytes → DepotError
  corrupt_index invalid_manifest_sha invalid_machine_id empty_machine_id invalid_blob_key :
      DepotError
  invalid_snapshot invalid_receipt foreign_manifest missing_receipt foreign_parent : DepotError
  not_expected_parent damaged_archive not_initialised : DepotError
  invalid_marker unsupported_format unsupported_feature legacy_archive write_upgrade_required :
      DepotError
  invalid_capability source_failed no_latest : DepotError
  unsupported_adapter : Bytes → Bytes → Option Bytes → DepotError
  changed_identity outside_latest : DepotError

-- A depot operation: it may fail, and what was written before stays written.
abbrev pub Depot : Type 0 → Type 0
Depot A = World → Result DepotError A × World

abbrev pub continue : {A B : Type 0} → Result DepotError A → (A → Depot B) → Depot B
continue (ok a) f w = f a w
continue (err e) f w = (err e, w)

infixl 5 ◌>>=◌ ◌>>◌
unfoldable pub ◌>>=◌ : {A B : Type 0} → Depot A → (A → Depot B) → Depot B
◌>>=◌ m f w = let (r, w') = m w in continue r f w'

abbrev pub ◌>>◌ : {A B : Type 0} → Depot A → Depot B → Depot B
m >> k = m >>= λ _. k

unfoldable pub pure : {A : Type 0} → A → Depot A
pure a w = (ok a, w)

unfoldable pub raise : {A : Type 0} → DepotError → Depot A
raise e w = (err e, w)

unfoldable pub lift : {A : Type 0} → Result DepotError A → Depot A
lift r w = (r, w)

-- The result of an operation as a value, for the code that looks at the error.
unfoldable pub attempt : {A : Type 0} → Depot A → Depot (Result DepotError A)
attempt m w = let (r, w') = m w in (ok r, w')

-- The next event happens; with none left, nothing does.
settle : List Event → World → Bool × World
settle [] w = (false, w)
settle (e ∷ es) w = (e.fails, record { objects = e.change w.objects; events = es })

-- A primitive call: the next event, then the call on what it left.
unfoldable pub primitive : {A : Type 0} → (Objects → Result DepotError A × Objects) → Depot A
unfolding settle
primitive f w =
    let (failed, v) = settle w.events w in
    if failed
    then (err io_failed, v)
    else (let (r, o) = f v.objects in (r, record v { objects = o }))

-- `ctx.Err()`, and the wait before a retry.
unfoldable pub check_context : Depot (Unit {0})
check_context = primitive (λ o. (ok tt, o))

read_content : Objects → Bytes → Result DepotError Bytes
read_content o key = elim (o key) [ none ↦ err object_not_exist | some b ↦ ok b ]

unfoldable pub get_stream : Bytes → Depot Bytes
unfolding read_content
get_stream key = primitive (λ o. (read_content o key, o))

-- As one step; Depot.Store.Atomic has the steps that the source takes.
write_absent : Objects → Bytes → Bytes → Result DepotError Bool × Objects
write_absent o key b = elim (o key) [ none ↦ (ok true, write o key b) | some _ ↦ (ok false, o) ]

-- `putBytesIfAbsent`; `putFileIfAbsent` is given the bytes of the file.
unfoldable pub put_if_absent : Bytes → Bytes → Depot Bool
unfolding write_absent
put_if_absent key b = primitive (λ o. write_absent o key b)

is_present : Option Bytes → Bool
is_present none = false
is_present (some _) = true

unfoldable pub exists : Bytes → Depot Bool
unfolding is_present
exists key = primitive (λ o. (ok (is_present (o key)), o))

module _ (sha256 : Bytes → Bytes) where
  unfoldable pub local_etag : Bytes → Bytes
  local_etag b = Hex.encode (sha256 b)

  read_object : Objects → Bytes → Result DepotError (Bytes × Bytes)
  read_object o key = elim (o key) [ none ↦ err object_not_exist | some b ↦ ok (b, local_etag b) ]

  unfoldable pub get : Bytes → Depot (Bytes × Bytes)
  unfolding read_object
  get key = primitive (λ o. (read_object o key, o))

  -- The whole call holds the store's lock. That nothing comes between its read and its write is assumed:
  -- where flock is there, other writes of these keys take the lock too; on Windows nothing is locked.
  write_conditional : Objects → Bytes → Bytes → Bytes → Result DepotError (Unit {0}) × Objects
  write_conditional o key b etag = elim (o key) [
    | none ↦ if text_eq etag [] then (ok tt, write o key b) else (err precondition_failed, o)
    | some current ↦
        if text_eq etag []
        then (err precondition_failed, o)
        else if text_eq (local_etag current) etag
        then (ok tt, write o key b)
        else (err precondition_failed, o)
  ]

  unfoldable pub put_conditional : Bytes → Bytes → Bytes → Depot (Unit {0})
  unfolding write_conditional
  put_conditional key b etag = primitive (λ o. write_conditional o key b etag)
