-- ===== src/Tests/Restart.antt =====
-- An example for `Close` and `New` of capacitor.go.
use capacitor.Prelude.{
  ◌≡◌, refl, true, false, arith, none, some, List, [], ◌∷◌, ◌++◌, ℕ, Text, text_eq, codes, ℤ, pos,
  ◌-ℤ◌, In, inl, inr,
}
use capacitor.Client.{new_stream_client}
use capacitor.Dict
use capacitor.Life.{Config, Answers, Life, new_capacitor, close_capacitor}
use capacitor.Life.Laws.{IsFresh}
use capacitor.Life.Restart.{restart-restores}
use capacitor.Log.{new_delta_log}
use capacitor.Store.Cache.{entry, is_expired}
use capacitor.Store.Persist.{EntryCodec, put}
use capacitor.Store.Persist.Registers.{IsPlain}
use capacitor.Store.Placement.{node_key}
use capacitor.Store.PeerSeq.{seq_key}
use capacitor.Store.Shard.{ValWithTs, StoreShard, text, new_store_shard, get_shard}
use capacitor.Strings.{has_prefix, from_be64}
use capacitor.Tests.Fixtures.{at_time, plain, new_node}
use capacitor.Tests.Msgp.{plain_msgp}

abbrev user : Text
user = codes "user"

abbrev stored : ValWithTs
stored = record {
  value = text (codes "x");
  timestamp = at_time 100 0;
  expires_at = pos 0;
  deleted = false;
}

-- One entry has an encoding.
abbrev one_codec : EntryCodec
one_codec = record { marshal_entry = λ v. 1 ∷ []; unmarshal_entry = λ b. some stored }

-- One register, changed since the last flush.
abbrev changed : StoreShard ℤ
changed = record (new_store_shard ℤ) {
  cache = record { entries = (user, stored) ∷ [] };
  dirty = record { entries = (user, true) ∷ [] };
}

abbrev running : Life plain
running = record {
  node = record (new_node (new_delta_log 4)) { store = record { shards = λ i. changed } };
  client = new_stream_client [];
  stream_addr = codes "127.0.0.1:7001";
}

-- A stored position of a peer, and a counter.
abbrev before : List (Text × List ℕ)
before = (seq_key (codes "B"), 0 ∷ 0 ∷ 0 ∷ 0 ∷ 0 ∷ 0 ∷ 0 ∷ 7 ∷ []) ∷ []

abbrev later : List (Text × List ℕ)
later = (node_key (codes "c") (codes "hits") (codes "A"), 1 ∷ 2 ∷ []) ∷ []

-- The database, with the port 7002, on a host whose name is not known.
abbrev answers : Answers
answers = record {
  hostname = [];
  unix = pos 1_700_000_000;
  database = some (before ++ ((user, 1 ∷ []) ∷ later));
  port = some (codes "7002");
  detected = codes "0.0.0.0";
  created = true;
  wall = pos 300;
  load_clock = λ k. pos 200;
}

-- No name, and a log size of 0.
abbrev config : Config
config = record {
  node_id = [];
  log_size = 0;
  advertise_addr = [];
  auth_token = codes "secret";
  disable_metrics = false;
}

key-IsPlain : IsPlain user
unfolding has_prefix
key-IsPlain = record {
  not_seq = refl;
  not_count = refl;
  not_metric_count = refl;
  not_metric_sum = refl;
  not_window = refl;
}

restart-restores_example :
    In (put user (1 ∷ []) none) (close_capacitor plain one_codec (λ k. pos 150) running).1
    × ((next : Life plain) × (new_capacitor plain one_codec config answers ≡ some next)
        × IsFresh plain one_codec plain_msgp next
        × (entry next.node.store user ≡ some stored))
restart-restores_example =
    restart-restores plain one_codec plain_msgp running (λ k. pos 150) config answers user stored
      true before later (codes "7002") key-IsPlain (unfold get_shard Dict.get text_eq in refl)
      (unfold entry get_shard Dict.get text_eq in refl) (λ h. ground arith)
      (unfold ◌-ℤ◌ in omega arith) refl (unfold is_expired in refl)
      (inr (7, unfold from_be64 in refl), tt) (inl (unfold node_key has_prefix in refl), tt)
      ((unfold node_key in λ e. cc), tt) refl refl refl
