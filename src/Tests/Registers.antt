-- ===== src/Tests/Registers.antt =====
-- Examples for the registers and the shards of store.go.
use capacitor.Prelude.{
  ◌≡◌, ◌≢◌, refl, false, not, arith, [], ◌∷◌, Text, text_eq, codes, ℤ, pos, ◌+ℤ◌, ltb_ℤ,
  if◌then◌else◌, inl, inr, ap, sym, ◌∙◌, pos_part,
}
use capacitor.Dict.{empty-IsMap}
use capacitor.Hlc.{Timestamp}
use capacitor.Store.Shard.{Store, Value, nil, text, empty_store, new_store_shard}
use capacitor.Store.Cache.{set, delete, get, exists, entry, is_stale, prune_expired_keys}
use capacitor.Store.Cache.Reads.{get-set_ttl}
use capacitor.Store.Cache.Converge.{
  Write, put, del, time_of, NoTies, replay, replay_converges, tie_diverges,
}
use capacitor.Store.Cache.Prune.{HasMaps, set-HasMaps, get-prune, delete-revived}
use capacitor.Tests.Fixtures.{at_time, entry-empty_store, two_SameElements}

abbrev key : Text
key = codes "user:1"

abbrev fresh : Store ℤ
fresh = empty_store ℤ

fresh_lem : (ts : Timestamp) → is_stale (entry fresh key) ts ≡ false
unfolding is_stale
fresh_lem ts = rw (entry-empty_store key) refl

-- A value with a TTL of 10.
abbrev short_lived : Store ℤ
short_lived = set fresh key (text (codes "x")) (at_time 100 0) (pos 10)

empty_store-HasMaps : HasMaps fresh
unfolding new_store_shard
empty_store-HasMaps i = empty-IsMap

short_lived-HasMaps : HasMaps short_lived
short_lived-HasMaps =
    set-HasMaps fresh key (text (codes "x")) (at_time 100 0) (pos 10) empty_store-HasMaps

abbrev first : Write
first = put key (text (codes "x")) (at_time 100 0) (pos 10)

abbrev second : Write
second = del key (at_time 100 1)

two_writes-NoTies : (a b : Write) → time_of a ≢ time_of b → NoTies (a ∷ b ∷ [])
two_writes-NoTies a b ne v w i j same t = elim i [
  | inl p ↦ elim j [
    | inl q ↦ sym p ∙ q
    | inr j' ↦ elim j' [
      | inl q ↦ absurd (ne (ap time_of p ∙ t ∙ sym (ap time_of q)))
      | inr k ↦ absurd k
    ]
  ]
  | inr i' ↦ elim i' [
    | inl p ↦ elim j [
      | inl q ↦ absurd (ne (ap time_of q ∙ sym t ∙ sym (ap time_of p)))
      | inr j' ↦ elim j' [ inl q ↦ sym p ∙ q | inr k ↦ absurd k ]
    ]
    | inr k ↦ absurd k
  ]
]

differ : at_time 100 0 ≢ at_time 100 1
differ e = let l = ap (λ (t : Timestamp). pos_part t.logical) e in omega arith

replay_converges_example :
    entry (replay fresh (first ∷ second ∷ [])) key
    ≡ entry (replay fresh (second ∷ first ∷ second ∷ [])) key
replay_converges_example =
    replay_converges fresh fresh (first ∷ second ∷ []) (second ∷ first ∷ second ∷ []) key
      (entry-empty_store key) (entry-empty_store key) (two_writes-NoTies first second differ)
      (two_SameElements first second)

text_of : Value → Text
text_of nil = []
text_of (text s) = s
text_of v = []

values_differ : text (codes "x") ≢ text (codes "")
values_differ e =
    let l = ap (λ v. text_eq (text_of v) []) e in (unfold text_of text_eq in ground (arith, l))

tie_diverges_example :
    entry
      (set
        (set fresh key (text (codes "x")) (at_time 100 0) (pos 0))
        key
        (text (codes ""))
        (at_time 100 0)
        (pos 5))
      key
    ≢ entry
        (set
          (set fresh key (text (codes "")) (at_time 100 0) (pos 5))
          key
          (text (codes "x"))
          (at_time 100 0)
          (pos 0))
        key
tie_diverges_example =
    tie_diverges fresh key (text (codes "x")) (text (codes "")) (at_time 100 0) (pos 0) (pos 5)
      (entry-empty_store key) values_differ

get-set_ttl_example :
    (get (pos 111) short_lived key
      ≡ (if ltb_ℤ (pos 100 +ℤ pos 10) (pos 111) then nil else text (codes "x")))
    × (exists (pos 111) short_lived key ≡ not (ltb_ℤ (pos 100 +ℤ pos 10) (pos 111)))
get-set_ttl_example =
    get-set_ttl fresh key (text (codes "x")) (at_time 100 0) (pos 10) (pos 111)
      (fresh_lem (at_time 100 0)) (omega arith) (omega arith) (unfold ◌+ℤ◌ in omega arith)

-- More than an hour after the delete.
abbrev late : ℤ
late = pos 4_000_000_000_000

delete-revived_example :
    (get late
        (set (delete fresh key (at_time 100 1)) key (text (codes "x")) (at_time 100 0) (pos 0))
        key
      ≡ nil)
    × (get late
          (set
            (prune_expired_keys late (delete fresh key (at_time 100 1)))
            key
            (text (codes "x"))
            (at_time 100 0)
            (pos 0))
          key
        ≡ text (codes "x"))
delete-revived_example =
    delete-revived late late fresh key (at_time 100 1) (at_time 100 0) (text (codes "x")) (pos 0)
      empty_store-HasMaps (fresh_lem (at_time 100 1)) (unfold capacitor.Hlc.after in refl)
      (omega arith) (unfold ◌+ℤ◌ in omega arith) (unfold ◌+ℤ◌ in omega arith) (omega arith)

get-prune_example :
    (get (pos 300) (prune_expired_keys (pos 200) short_lived) key ≡ get (pos 300) short_lived key)
    × (exists (pos 300) (prune_expired_keys (pos 200) short_lived) key
        ≡ exists (pos 300) short_lived key)
get-prune_example = get-prune (pos 200) (pos 300) short_lived key short_lived-HasMaps (omega arith)
