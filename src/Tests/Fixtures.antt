-- ===== src/Tests/Fixtures.antt =====
-- Test data shared by the examples: whole numbers in place of `float64`, a plain encoding in place of
-- msgpack's, and a node built on the two.
use capacitor.Prelude.{
  false, ℕ, zero, suc, ◌+◌, ◌/◌, ◌≡◌, refl, arith, Option, none, some, List, [], ◌∷◌, length, Text,
  codes, ℤ, pos, pos_part, ◌+ℤ◌, ◌-ℤ◌, ltb_ℤ, eqb_ℤ, SameElements, inl, inr,
}
use capacitor.Dict
use capacitor.Float.{Float64, IsIeee}
use capacitor.Hlc.{Timestamp, Hlc}
use capacitor.Log.{DeltaLog}
use capacitor.Log.Entry.{LogEntry, Codec, IsCodec, msg_set}
use capacitor.Metrics.{no_stat}
use capacitor.Node.{Platform, Node}
use capacitor.Store.Shard.{Value, nil, text, blob, other, empty_store, get_shard, new_store_shard}
use capacitor.Store.Cache.{entry}
use capacitor.Store.Window.{window_at, window_in}

abbrev pub int_float : Float64
int_float = record {
  Carrier = ℤ;
  zero_f = pos 0;
  add = ◌+ℤ◌;
  sub = ◌-ℤ◌;
  div = λ a b. pos (pos_part a / pos_part b);
  greater = λ a b. ltb_ℤ b a;
  is_zero = λ z. eqb_ℤ z (pos 0);
  of_int = λ z. z;
  to_int = λ z. z;
  of_uint = λ n. pos n;
  to_uint = pos_part;
  bits = pos_part;
  from_bits = λ n. pos n;
}

pub int_float-IsIeee : IsIeee int_float
int_float-IsIeee = record {
  zero_exact = refl;
  add_exact = λ a b p q r. refl;
  sub_exact = λ a b p q r. refl;
  greater_exact = λ a b p q. refl;
  to_int_exact = λ a p. refl;
  greater_irreflexive = λ x. ground arith;
  greater_trans = λ x y z p q. ground arith;
}

abbrev pub at_time : ℕ → ℕ → Timestamp
at_time p l = record { physical = pos p; logical = pos l }

abbrev pub entry_of : ℕ → List ℕ → LogEntry ℤ
entry_of seq value = record {
  seq = seq;
  ts = at_time 100 0;
  born_at = pos 0;
  op = msg_set;
  key = codes "k";
  node_id = [];
  value = value;
  delta = pos 0;
  ttl = pos 0;
}

abbrev plain_unmarshal : List ℕ → Option (LogEntry ℤ)
plain_unmarshal [] = none
plain_unmarshal (seq ∷ value) = some (entry_of seq value)

-- The sequence number and the value.
abbrev pub plain_codec : Codec ℤ
plain_codec = record {
  marshal = λ e. e.seq ∷ e.value;
  unmarshal = plain_unmarshal;
  msgsize = λ e. length e.value + 2;
}

pub plain_codec-IsCodec : IsCodec plain_codec
plain_codec-IsCodec = record { within = λ e. omega arith }

abbrev untag : ℕ → List ℕ → Value
untag zero s = text s
untag (suc n) s = blob s

abbrev plain_unmarshal_value : List ℕ → Value
plain_unmarshal_value [] = nil
plain_unmarshal_value (tag ∷ s) = untag tag s

-- A tag and the bytes; numbers cannot be serialized.
abbrev plain_marshal_value : Value → Option (List ℕ)
plain_marshal_value nil = some []
plain_marshal_value (text s) = some (0 ∷ s)
plain_marshal_value (blob b) = some (1 ∷ b)
plain_marshal_value (other x) = none

abbrev pub plain : Platform
plain = record {
  float = int_float;
  codec = plain_codec;
  msgpack = record { marshal_value = plain_marshal_value; unmarshal_value = plain_unmarshal_value };
}

abbrev pub clock : Hlc
clock = record { physical = pos 100; logical = pos 3; max_offset = pos 50 }

abbrev pub new_node : DeltaLog → Node plain
new_node log = record {
  node_id = codes "A";
  store = empty_store ℤ;
  hlc = clock;
  log = log;
  metrics = record {
    set_lat = no_stat;
    get_lat = no_stat;
    incr_lat = no_stat;
    replicate_lat = no_stat;
  };
  auth_token = codes "secret";
  peer_seqs = Dict.empty;
  peer_stops = Dict.empty;
  disable_metrics = false;
}

pub entry-empty_store : (k : Text) → entry (empty_store ℤ) k ≡ none
unfolding entry Dict.get get_shard new_store_shard Dict.empty
entry-empty_store k = refl

pub window-empty_store : (k : Text) → window_at (empty_store ℤ) k ≡ []
unfolding window_at window_in Dict.get_or Dict.get get_shard new_store_shard Dict.empty
window-empty_store k = refl

-- Two elements, and the same in another order and with one repeated.
pub two_SameElements : {A : Type 0} (a b : A) → SameElements (a ∷ b ∷ []) (b ∷ a ∷ b ∷ [])
two_SameElements a b = (
  λ x i. elim i [ inl p ↦ inr (inl p) | inr j ↦ elim j [ inl q ↦ inl q | inr k ↦ absurd k ] ],
  λ x i. elim i [
    | inl p ↦ inr (inl p)
    | inr j ↦ elim j [ inl q ↦ inl q | inr k ↦ elim k [ inl r ↦ inr (inl r) | inr m ↦ absurd m ] ]
  ],
)
