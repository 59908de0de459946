-- ===== src/Node/Api/Scan.antt =====
-- `GetScan` and `getScanInternal` of capacitor.go.
use capacitor.Prelude.{ℕ, ◌≡◌, refl, ap, ◌==◌, Option, none, some, List, [], Text, if◌then◌else◌}
use capacitor.Node.{Platform, Node, Readings}
use capacitor.Node.Api.{get, to_text, time_get}
use capacitor.Store.Cache
use capacitor.Store.Shard.{Value, nil, text, blob, other}

-- What the destination points at: a string, a byte slice, or a value of another type, which is known
-- by a number.
pub data Dest : Type 0 where
  to_string to_bytes : Dest
  to_type : ℕ → Dest

-- The value that is assigned to the destination, or one of the errors.
pub data Scan : Type 0 where
  scanned : Value → Scan
  not_found failed : Scan

-- The library's part: reflect.TypeOf of a value that is no string and no byte slice, and
-- msgpack.Unmarshal into a destination.
pub record Reflect : Type 0 where
  pub type_of : ℕ → ℕ
  pub unmarshal_into : Dest → List ℕ → Option Value

module _ (p : Platform) (lib : Reflect) where
  open p use {msgpack}

  -- msgpack.Unmarshal as the last step.
  unmarshal_scan : Dest → List ℕ → Scan
  unmarshal_scan dest b = elim (lib.unmarshal_into dest b) [ none ↦ failed | some v ↦ scanned v ]

  -- msgpack.Marshal with its error dropped.
  marshal_or_nil : Value → List ℕ
  marshal_or_nil v = elim (msgpack.marshal_value v) [ none ↦ [] | some b ↦ b ]

  marshal_scan : Dest → ℕ → Scan
  unfolding unmarshal_scan
  marshal_scan dest x = elim (msgpack.marshal_value (other x)) [
    | none ↦ failed
    | some b ↦ unmarshal_scan dest b
  ]

  -- `getScanInternal` on the value in the store: assigned as it is if the types agree, converted between
  -- strings and byte slices, and otherwise through msgpack.
  unfoldable pub scan_value : Value → Dest → Scan
  unfolding unmarshal_scan marshal_or_nil marshal_scan
  scan_value nil dest = not_found
  scan_value (text s) to_string = scanned (text s)
  scan_value (text s) to_bytes = scanned (blob s)
  scan_value (text s) (to_type t) = unmarshal_scan (to_type t) s
  scan_value (blob b) to_string = scanned (text b)
  scan_value (blob b) to_bytes = scanned (blob b)
  scan_value (blob b) (to_type t) = unmarshal_scan (to_type t) b
  scan_value (other x) to_string = scanned (text (marshal_or_nil (other x)))
  scan_value (other x) to_bytes = scanned (blob (marshal_or_nil (other x)))
  scan_value (other x) (to_type t) =
      let converted = marshal_scan (to_type t) x in
      if lib.type_of x == t then scanned (other x) else converted

  -- `GetScan`
  unfoldable pub get_scan : Readings → Node p → Text → Dest → Node p × Scan
  unfolding scan_value time_get
  get_scan r n key dest = (time_get p n r, scan_value (Cache.get r.wall n.store key) dest)

  -- What `Get` returns, as a scan into a string or a byte slice would.
  abbrev pub scan_of : Value → (Text → Value) → Scan
  scan_of nil wrap = not_found
  scan_of v wrap = scanned (wrap (to_text p v))

  scan_string : (v : Value) → scan_value v to_string ≡ scan_of v text
  unfolding scan_value to_text
  scan_string nil = refl
  scan_string (text s) = refl
  scan_string (blob b) = refl
  scan_string (other x) = refl

  scan_bytes : (v : Value) → scan_value v to_bytes ≡ scan_of v blob
  unfolding scan_value to_text
  scan_bytes nil = refl
  scan_bytes (text s) = refl
  scan_bytes (blob b) = refl
  scan_bytes (other x) = refl

  -- `GetScan` into a string or a byte slice gives the bytes that `Get` returns at the same time, and has
  -- the same effect on the node; where the register is missing, expired, deleted or holds nil,
  -- `Get` returns nothing and `GetScan` an error.
  pub get_scan-get :
      (r : Readings) (n : Node p) (key : Text)
      → let v = Cache.get r.wall n.store key in
        (get_scan r n key to_string ≡ ((get p r n key).0, scan_of v text))
        × (get_scan r n key to_bytes ≡ ((get p r n key).0, scan_of v blob))
        × ((get p r n key).1 ≡ to_text p v)
  unfolding get_scan get
  get_scan-get r n key =
      let v = Cache.get r.wall n.store key in
      (
        ap (λ c. (time_get p n r, c)) (scan_string v),
        ap (λ c. (time_get p n r, c)) (scan_bytes v),
        refl,
      )
