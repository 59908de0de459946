-- ===== src/Store/Placement/Laws.antt =====
-- Where the keys of one counter, metric or window are stored.
use capacitor.Prelude.{
  ℕ, suc, ◌+◌, ◌<◌, ◌≡◌, refl, ap, arith, [], ◌∷◌, ◌++◌, Text, drop, take, length, ◌∙◌, text_eq,
}
use capacitor.Strings.{colon, Lacks, index_of-Lacks, index_of-append}
use capacitor.Store.Placement.{get_shard_key, shard_index, num_shards, node_key}

drop-append : (s : Text) (c : ℕ) (t : Text) → drop (length s + 1) (s ++ c ∷ t) ≡ t
drop-append s c t = rw (length_suc s) (go s)
  where
    length_suc : (s : Text) → length s + 1 ≡ suc (length s)
    length_suc s = omega arith

    go : (s : Text) → drop (suc (length s)) (s ++ c ∷ t) ≡ t
    go [] = refl
    go (x ∷ xs) = go xs

take-append : (s t : Text) → take (length s) (s ++ t) ≡ s
take-append [] t = refl
take-append (x ∷ xs) t = ap (λ r. x ∷ r) (take-append xs t)

-- The shard array is never read out of bounds.
pub shard_index_bound : (key : Text) → shard_index key < num_shards
unfolding shard_index
shard_index_bound key = omega arith

pub get_shard_key-plain : (key : Text) → Lacks colon key → get_shard_key key ≡ key
unfolding get_shard_key
get_shard_key-plain key h = ground (arith, index_of-Lacks colon key h)

pub get_shard_key-node_key :
    (kind key node : Text)
    → Lacks colon kind
    → Lacks colon key
    → get_shard_key (node_key kind key node) ≡ key
unfolding get_shard_key node_key
get_shard_key-node_key kind key node hk h = ground (
  arith,
  index_of-append colon kind (key ++ (colon ∷ node)) hk,
  drop-append kind colon (key ++ (colon ∷ node)),
  index_of-append colon key node h,
  take-append key (colon ∷ node),
)

-- For a kind and a key without a colon, the composite key `kind:key:node` lies in the shard of the
-- key itself, where the counter, metric and window operations keep it.
pub shard_index-node_key :
    (kind key node : Text)
    → Lacks colon kind
    → Lacks colon key
    → shard_index (node_key kind key node) ≡ shard_index key
unfolding shard_index
shard_index-node_key kind key node hk h =
    rw (get_shard_key-node_key kind key node hk h, get_shard_key-plain key h)

text_eq-append : (p a b : Text) → text_eq (p ++ a) (p ++ b) ≡ text_eq a b
unfolding text_eq
text_eq-append [] a b = refl
text_eq-append (x ∷ p) a b = ground (arith, text_eq-append p a b)

-- Two nodes' keys of one counter are the same only for the same node.
pub text_eq-node_key :
    (kind key m n : Text) → text_eq (node_key kind key m) (node_key kind key n) ≡ text_eq m n
unfolding node_key
text_eq-node_key kind key m n =
    text_eq-append kind (colon ∷ (key ++ (colon ∷ m))) (colon ∷ (key ++ (colon ∷ n)))
    ∙ text_eq-append (colon ∷ []) (key ++ (colon ∷ m)) (key ++ (colon ∷ n))
    ∙ text_eq-append key (colon ∷ m) (colon ∷ n)
    ∙ text_eq-append (colon ∷ []) m n
