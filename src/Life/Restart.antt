-- ===== src/Life/Restart.antt =====
-- A register from `Close` to the next `New`, over capacitor.go and store.go.
use capacitor.Prelude.{
  ℕ, ◌≡◌, true, false, some, none, List, ◌∷◌, ◌++◌, Text, ℤ, pos, ◌-ℤ◌, ◌<ℤ◌, ltb_ℤ, InInt64, In,
  if◌then◌else◌, Bool, ◌∙◌, ap,
}
use capacitor.Dict
use capacitor.Life.{Config, Answers, Life, new_store, new_capacitor, close_capacitor}
use capacitor.Life.Laws.{IsFresh, new_capacitor-IsFresh}
use capacitor.Node.{Platform}
use capacitor.Store.Cache.{entry, is_expired}
use capacitor.Store.Persist.{EntryCodec, put}
use capacitor.Store.Persist.Flush.{register-restored}
use capacitor.Store.Persist.Load.{AllReadable, NoneUnder}
use capacitor.Store.Persist.Registers.{IsPlain}
use capacitor.Store.Shard.{ValWithTs, get_shard, empty_store}
use capacitor.Wire.{Msgp}

module _ (p : Platform) (entries : EntryCodec) (m : Msgp p.float.Carrier) where
  open entries use {marshal_entry, unmarshal_entry}

  -- Where the key of a register is plain and dirty, msgpack decodes what it encoded, and the entry has
  -- not expired at the flush of `Close` (with its remaining time in the range of an int64) nor
  -- when `New` loads it: `Close` writes the encoded entry, for the time that remains if it expires.
  -- If the next `New` then finds these bytes under the key in a readable database with no later item
  -- under it, has a listener, and creates memberlist, then it gives a fresh node, whatever its
  -- configuration is, that has this very entry under the key.
  pub restart-restores :
      (life : Life p) (clock : Text → ℤ) (cfg : Config) (a : Answers) (key : Text) (v : ValWithTs)
      (b : Bool) (before later : List (Text × List ℕ)) (port : Text)
      → IsPlain key
      → Dict.get (get_shard life.node.store key).dirty key ≡ some b
      → entry life.node.store key ≡ some v
      → (ltb_ℤ (pos 0) v.expires_at ≡ true → clock key <ℤ v.expires_at)
      → InInt64 (v.expires_at -ℤ clock key)
      → unmarshal_entry (marshal_entry v) ≡ some v
      → is_expired (a.load_clock key) v ≡ false
      → AllReadable before
      → AllReadable later
      → NoneUnder key later
      → a.database ≡ some (before ++ ((key, marshal_entry v) ∷ later))
      → a.port ≡ some port
      → a.created ≡ true
      → In
          (put key
            (marshal_entry v)
            (if ltb_ℤ (pos 0) v.expires_at then some (v.expires_at -ℤ clock key) else none))
          (close_capacitor p entries clock life).1
        × ((next : Life p) × (new_capacitor p entries cfg a ≡ some next)
            × IsFresh p entries m next
            × (entry next.node.store key ≡ some v))
  unfolding close_capacitor
  restart-restores life clock cfg a key v b before later port plain dirty holds alive fits decoded
        live ok ok' alone opened listens created =
      let (written, (s, loaded, kept)) =
        register-restored p.float entries clock a.load_clock life.node.store
          (empty_store p.float.Carrier) key v b before later plain dirty holds alive fits decoded
          live ok ok' alone in
      let (next, made, on_it, fresh) =
        new_capacitor-IsFresh p entries m cfg a s port (unfold new_store in rw opened loaded)
          listens created in
      (written, (next, made, fresh, ap (λ t. entry t key) on_it ∙ kept))
