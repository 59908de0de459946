-- ===== src/Life.antt =====
-- capacitor.go: `New` and `Close`, with `newStore` and `close` of store.go. What the libraries answer
-- (badger, the listener, the gossip list, the host's name) is an argument.
pub mod Laws
pub mod Restart
use capacitor.Prelude.{
  ℕ, ◌==◌, Bool, true, false, ◌||◌, Option, none, some, List, [], ◌∷◌, ◌++◌, Text, text_eq, codes,
  ℤ, if◌then◌else◌,
}
use capacitor.Client.{StreamClient, new_stream_client, close}
use capacitor.Dict
use capacitor.Float.{Float64}
use capacitor.Hlc.{new_hlc}
use capacitor.Log.{new_delta_log}
use capacitor.Metrics.{no_stat}
use capacitor.Node.{Platform, Node}
use capacitor.Store.Persist.{EntryCodec, WriteOp, load, flush}
use capacitor.Store.Shard.{Store, empty_store}
use capacitor.Strings.{colon, index_of, decimal}

-- The fields of `Config` that the state depends on. `log_size` is a `uint64`.
pub record Config : Type 0 where
  pub node_id : Text
  pub log_size : ℕ
  pub advertise_addr : Text
  pub auth_token : Text
  pub disable_metrics : Bool

-- What `New` is answered: the host's name, the Unix time, the entries of the database (`none` if it
-- cannot be opened), the port of the listener (`none` if there is none), the address that memberlist
-- has detected, whether memberlist.Create succeeds, and the clock.
pub record Answers : Type 0 where
  pub hostname : Text
  pub unix : ℤ
  pub database : Option (List (Text × List ℕ))
  pub port : Option Text
  pub detected : Text
  pub created : Bool
  pub wall : ℤ
  pub load_clock : Text → ℤ

-- The node with its client and the address of its streams.
pub record Life (p : Platform) : Type 0 where
  pub node : Node p
  pub client : StreamClient
  pub stream_addr : Text

-- An empty `NodeID` is replaced by fmt.Sprintf("%s-%d", hostname, unix), a `LogSize` of 0 by a million.
unfoldable pub with_defaults : Config → Answers → Config
with_defaults cfg a = record cfg {
  node_id = if text_eq cfg.node_id [] then a.hostname ++ b'-' ∷ decimal a.unix else cfg.node_id;
  log_size = if cfg.log_size == 0 then 1_000_000 else cfg.log_size;
}

-- net.JoinHostPort
join_host_port : Text → Text → Text
join_host_port host port = elim (index_of colon host) [
  | none ↦ host ++ colon ∷ port
  | some i ↦ b'[' ∷ host ++ b']' ∷ colon ∷ port
]

-- The address to advertise for streams.
unfoldable pub advertised : Config → Answers → Text
advertised cfg a =
    let addr = if text_eq cfg.advertise_addr [] then a.detected else cfg.advertise_addr in
    if text_eq addr [] || text_eq addr (codes "0.0.0.0") then codes "127.0.0.1" else addr

module _ (p : Platform) (entries : EntryCodec) where
  open p.float use {Carrier}

  -- `newStore`; `none` where the database cannot be opened, and where loading panics.
  unfoldable pub new_store : Answers → Option (Store Carrier)
  new_store a = elim a.database [
    | none ↦ none
    | some items ↦ load p.float entries a.load_clock (empty_store Carrier) items
  ]

  -- The node that `New` makes, on a store.
  unfoldable pub first_node : Config → Answers → Store Carrier → Node p
  first_node cfg a store = record {
    node_id = cfg.node_id;
    store = store;
    hlc = new_hlc a.wall;
    log = new_delta_log cfg.log_size;
    metrics = record {
      set_lat = no_stat;
      get_lat = no_stat;
      incr_lat = no_stat;
      replicate_lat = no_stat;
    };
    auth_token = cfg.auth_token;
    peer_seqs = Dict.empty;
    peer_stops = Dict.empty;
    disable_metrics = cfg.disable_metrics;
  }

  unfoldable pub first_life : Config → Answers → Store Carrier → Text → Life p
  unfolding first_node join_host_port advertised
  first_life cfg a store port = record {
    node = first_node cfg a store;
    client = new_stream_client cfg.auth_token;
    stream_addr = join_host_port (advertised cfg a) port;
  }

  -- `New`; `none` is an error.
  unfoldable pub new_capacitor : Config → Answers → Option (Life p)
  unfolding with_defaults new_store first_life
  new_capacitor given a =
      let cfg = with_defaults given a in
      elim (new_store a) [
        | none ↦ none
        | some store ↦ elim a.port [
          | none ↦ none
          | some port ↦ (if a.created then some (first_life cfg a store port) else none)
        ]
      ]

  -- `Close`, with the operations of the last flush.
  unfoldable pub close_capacitor : (Text → ℤ) → Life p → Life p × List WriteOp
  close_capacitor clock life =
      let (store, ops) = flush p.float entries clock life.node.store in
      (record life { node = record life.node { store = store }; client = close life.client }, ops)
