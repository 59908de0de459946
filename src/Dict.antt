-- ===== src/Dict.antt =====
-- A Go map with string keys (`map[string]V`), as the list of its entries. A read of a missing key is
-- `none`, or the zero value by `get_or`. Go does not fix the order of `range`; the order of the list
-- stands for one such order. Clients have `dict_laws`.
mod Assoc
use Assoc.{
  meets, meets-eq-find, find, store, without, keep_entries, find-store, find-without, find-keep,
  IsUnique,
}
use Assoc.{store-IsUnique, without-IsUnique, keep-IsUnique}
use capacitor.Prelude.{
  ℕ, ◌≡◌, refl, Bool, Option, none, some, false, ◌&&◌, ◌||◌, List, [], ◌∷◌, arith, Text, text_eq,
  if◌then◌else◌, length,
}

pub record Dict {ℓ} (V : Type ℓ) : Type ℓ where
  pub entries : List (Text × V)

module _ {ℓ} {V : Type ℓ} where
  -- make(map[string]V)
  unfoldable pub empty : Dict V
  empty = record { entries = [] }

  -- v, ok := m[k]
  unfoldable pub get : Dict V → Text → Option V
  unfolding find
  get d k = find k d.entries

  -- m[k], with the zero value for a missing key
  unfoldable pub get_or : Dict V → Text → V → V
  unfolding get
  get_or d k zero_value = elim (get d k) [ none ↦ zero_value | some v ↦ v ]

  -- m[k] = v
  unfoldable pub put : Dict V → Text → V → Dict V
  unfolding store
  put d k v = record { entries = store k v d.entries }

  -- delete(m, k)
  unfoldable pub remove : Dict V → Text → Dict V
  unfolding without
  remove d k = record { entries = without k d.entries }

  -- len(m)
  unfoldable pub size : Dict V → ℕ
  size d = length d.entries

  -- for k, v := range m { if !p(k, v) { delete(m, k) } }
  unfoldable pub keep : (Text → V → Bool) → Dict V → Dict V
  unfolding keep_entries
  keep p d = record { entries = keep_entries p d.entries }

  -- No key has two entries.
  pub record IsMap (d : Dict V) : Type 0 where
    unique : IsUnique d.entries

  pub get-empty : (k : Text) → get empty k ≡ none
  unfolding get empty find
  get-empty k = refl

  pub get-put :
      (d : Dict V) (k j : Text) (v : V)
      → get (put d k v) j ≡ (if text_eq k j then some v else get d j)
  unfolding get put
  get-put d k j v = find-store k j v d.entries

  pub get-remove :
      (d : Dict V) (k j : Text) → get (remove d k) j ≡ (if text_eq k j then none else get d j)
  unfolding get remove
  get-remove d k j = find-without k j d.entries

  pub get-keep :
      (p : Text → V → Bool) (d : Dict V) (k : Text)
      → IsMap d
      → get (keep p d) k
        ≡ elim (get d k) [ none ↦ none | some v ↦ (if p k v then some v else none) ]
  unfolding get keep
  get-keep p d k u = find-keep p k d.entries u.unique

  pub empty-IsMap : IsMap empty
  unfolding empty
  empty-IsMap = record { unique = tt }

  pub put-IsMap : (d : Dict V) (k : Text) (v : V) → IsMap d → IsMap (put d k v)
  unfolding put
  put-IsMap d k v u = record { unique = store-IsUnique k v d.entries u.unique }

  pub remove-IsMap : (d : Dict V) (k : Text) → IsMap d → IsMap (remove d k)
  unfolding remove
  remove-IsMap d k u = record { unique = without-IsUnique k d.entries u.unique }

  pub keep-IsMap : (p : Text → V → Bool) (d : Dict V) → IsMap d → IsMap (keep p d)
  unfolding keep
  keep-IsMap p d u = record { unique = keep-IsUnique p d.entries u.unique }

  -- Some entry under `k` has a value with property `p`: what a loop over the map meets.
  unfoldable pub has_entry : (V → Bool) → Text → List (Text × V) → Bool
  unfolding meets
  has_entry p k l = meets p k l

  pub has_entry-get :
      (p : V → Bool) (d : Dict V) (k : Text)
      → IsMap d
      → has_entry p k d.entries ≡ elim (get d k) [ none ↦ false | some v ↦ p v ]
  unfolding has_entry get
  has_entry-get p d k u = meets-eq-find p k d.entries u.unique

pub ruleset dict_laws = (get-empty, get-put, get-remove)
