-- ===== src/Life/Laws.antt =====
-- Theorems on `New` of capacitor.go.
use capacitor.Prelude.{
  ℕ, ◌<◌, ◌≡◌, ◌≢◌, refl, arith, true, some, List, [], ◌∷◌, ◌++◌, Text, text_eq, text_eq_iff,
  Bool-cases, inl, inr,
}
use capacitor.Client.{new_stream_client}
use capacitor.Client.Streams.{IsClient, new_stream_client-IsClient}
use capacitor.Life.{
  Config, Answers, Life, with_defaults, new_store, first_node, first_life, new_capacitor,
}
use capacitor.Log.{new_delta_log}
use capacitor.Log.Append.{IsValid}
use capacitor.Log.Retain.{IsIntact, new-IsValid}
use capacitor.Node.{Platform}
use capacitor.Store.Persist.{EntryCodec}
use capacitor.Store.Shard.{Store}
use capacitor.Strings.{decimal}
use capacitor.Wire.{Msgp}

-- A log has room for an entry, and a node a name.
size_lem : (cfg : Config) (a : Answers) → 0 < (with_defaults cfg a).log_size
unfolding with_defaults
size_lem cfg a = ground arith

append-cons : (s t : Text) (x : ℕ) → s ++ x ∷ t ≢ []
append-cons [] t x e = cc
append-cons (y ∷ s) t x e = cc

name_lem : (cfg : Config) (a : Answers) → (with_defaults cfg a).node_id ≢ []
unfolding with_defaults
name_lem cfg a = elim (Bool-cases (text_eq cfg.node_id [])) [
  | inl e ↦ rw e (append-cons a.hostname (decimal a.unix) b'-')
  | inr e ↦ rw e (λ empty. ground (arith, e, text_eq_iff cfg.node_id []))
]

module _ (p : Platform) (entries : EntryCodec) (m : Msgp p.float.Carrier) where
  -- A node that works from its first call on: its log is valid and has no entry yet, its client keeps the
  -- invariant of connections and has the node's token, and it has a name.
  pub record IsFresh (life : Life p) : Type 0 where
    pub log_valid : IsValid life.node.log
    pub log_intact : (h : ℕ → List ℕ) → IsIntact life.node.log 1 h
    pub log_head : life.node.log.head ≡ 1
    pub client_ok : IsClient m life.client
    pub same_token : life.node.auth_token ≡ life.client.auth_token
    pub named : life.node.node_id ≢ []

  IsFresh-first_life :
      (cfg : Config) (a : Answers) (store : Store p.float.Carrier) (port : Text)
      → 0 < cfg.log_size
      → cfg.node_id ≢ []
      → IsFresh (first_life p entries cfg a store port)
  unfolding first_life first_node
  IsFresh-first_life cfg a store port some_room name = record {
    log_valid = (new-IsValid cfg.log_size (λ i. []) some_room).0;
    log_intact = λ h. (new-IsValid cfg.log_size h some_room).1;
    log_head = unfold new_delta_log in refl;
    client_ok = new_stream_client-IsClient m cfg.auth_token;
    same_token = unfold new_stream_client in refl;
    named = name;
  }

  -- Whatever the configuration (no name, a log size of 0, any other): where the database is opened and
  -- loaded, there is a listener, and memberlist is created, `New` makes a node, on the loaded
  -- store, that is fresh.
  pub new_capacitor-IsFresh :
      (cfg : Config) (a : Answers) (store : Store p.float.Carrier) (port : Text)
      → new_store p entries a ≡ some store
      → a.port ≡ some port
      → a.created ≡ true
      → (life : Life p) × (new_capacitor p entries cfg a ≡ some life)
        × (life.node.store ≡ store)
        × IsFresh life
  unfolding new_capacitor first_life
  new_capacitor-IsFresh cfg a store port loaded listens created = (
    first_life p entries (with_defaults cfg a) a store port,
    rw (new_capacitor, loaded, listens, created) refl,
    (unfold first_node in refl),
    IsFresh-first_life (with_defaults cfg a) a store port (size_lem cfg a) (name_lem cfg a),
  )
