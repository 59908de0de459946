-- ===== src/Store/Cache/Reads.antt =====
-- What `get` and `exists` of store.go return after writes.
use capacitor.Prelude.{
  ◌≡◌, ◌≢◌, refl, true, false, not, arith, Text, text_eq, text_eq_iff, ℤ, pos, if◌then◌else◌, ◌+ℤ◌,
  ◌≤ℤ◌, ◌<ℤ◌, ltb_ℤ, InInt64, wrap64_exact, +ℤ_parts,
}
use capacitor.Hlc.{Timestamp, after}
use capacitor.Hlc.Order.{greater_or_equal-eq-not-after}
use capacitor.Store.Shard.{Value, nil, Store}
use capacitor.Store.Cache.{is_stale, live_value, tombstone, set, delete, entry, get, exists}
use capacitor.Store.Cache.Entry.{join, entry-set, entry-delete}

text_eq_refl : (k : Text) → text_eq k k ≡ true
text_eq_refl k = (text_eq_iff k k).1 refl

module _ {F : Type 0} (s : Store F) (key : Text) where
  -- A key that `exists` reports missing reads as nil.
  pub get_of_not_exists : (now : ℤ) → exists now s key ≡ false → get now s key ≡ nil
  unfolding get exists
  get_of_not_exists now h = ground arith

  entry-set_self :
      (value : Value) (ts : Timestamp) (ttl : ℤ)
      → entry (set s key value ts ttl) key ≡ join (entry s key) (live_value value ts ttl)
  entry-set_self value ts ttl = rw (entry-set s key value ts ttl key, text_eq_refl key)

  pub entry-delete_self :
      (ts : Timestamp) → entry (delete s key ts) key ≡ join (entry s key) (tombstone ts)
  entry-delete_self ts = rw (entry-delete s key ts key, text_eq_refl key)

  -- A value written with a positive TTL by a write that is not stale, whose timestamp is not
  -- negative and whose expiry fits an `int64`: the value is read back, and the key exists, up to
  -- and including the instant `ts.Physical + ttl`; later it reads as missing.
  pub get-set_ttl :
      (value : Value) (ts : Timestamp) (ttl now : ℤ)
      → is_stale (entry s key) ts ≡ false
      → pos 0 <ℤ ttl
      → pos 0 ≤ℤ ts.physical
      → InInt64 (ts.physical +ℤ ttl)
      → (get now (set s key value ts ttl) key
          ≡ (if ltb_ℤ (ts.physical +ℤ ttl) now then nil else value))
        × (exists now (set s key value ts ttl) key ≡ not (ltb_ℤ (ts.physical +ℤ ttl) now))
  unfolding get exists
  get-set_ttl value ts ttl now fresh long early fits = rw (entry-set_self value ts ttl) (
      unfold join is_stale live_value in
      ground (arith, wrap64_exact (ts.physical +ℤ ttl) fits, +ℤ_parts ts.physical ttl))

  -- A value written without a TTL by a write that is not stale is read back at any time.
  pub get-set_forever :
      (value : Value) (ts : Timestamp) (ttl now : ℤ)
      → is_stale (entry s key) ts ≡ false
      → ttl ≤ℤ pos 0
      → (get now (set s key value ts ttl) key ≡ value)
        × (exists now (set s key value ts ttl) key ≡ true)
  unfolding get exists
  get-set_forever value ts ttl now fresh short =
      rw (entry-set_self value ts ttl) (unfold join is_stale live_value in ground arith)

  -- After a delete that is not stale the key reads as missing, and a `set` that is not after the
  -- delete does not bring it back.
  pub get-delete :
      (ts : Timestamp) (now : ℤ) (value : Value) (ts' : Timestamp) (ttl : ℤ)
      → is_stale (entry s key) ts ≡ false
      → after ts' ts ≡ false
      → (get now (delete s key ts) key ≡ nil)
        × (exists now (delete s key ts) key ≡ false)
        × (get now (set (delete s key ts) key value ts' ttl) key ≡ nil)
  unfolding get exists
  get-delete ts now value ts' ttl fresh late =
      rw (entry-set (delete s key ts) key value ts' ttl key, text_eq_refl key, entry-delete_self ts)
        (unfold join is_stale tombstone live_value in
          ground (arith, greater_or_equal-eq-not-after ts ts'))

  -- A write of one key leaves what other keys read.
  pub get-set_ne :
      (j : Text) (value : Value) (ts : Timestamp) (ttl now : ℤ)
      → key ≢ j
      → (get now (set s key value ts ttl) j ≡ get now s j)
        × (get now (delete s key ts) j ≡ get now s j)
  unfolding get
  get-set_ne j value ts ttl now ne =
      ground (arith, entry-set s key value ts ttl j, entry-delete s key ts j, text_eq_iff key j)
