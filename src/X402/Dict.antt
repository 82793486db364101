-- ===== src/X402/Dict.antt =====
-- `Map<string, number>`: an association list in insertion order, each key once.
use Prim.Native.String.{String}
use text.Mathlib.Text.{◌==◌ as str_eq}
use text.Mathlib.TextEquality.{eq_iff}
use vela_sdk.Prelude.{
  ◌≡◌, ◌≢◌, refl, Option, none, some, List, [], ◌∷◌, ℤ, ◌<ℤ◌, arith, if◌then◌else◌,
}
use vela_sdk.Prelude.Int.{leb_ℤ}

abbrev pub Dict : Type 0
Dict = List (String × ℤ)

-- `map.get(key)`
unfoldable pub lookup : String → Dict → Option ℤ
lookup key [] = none
lookup key ((k, v) ∷ dict) = if str_eq k key then some v else lookup key dict

-- `map.set(key, value)` keeps the place of a key that is there.
unfoldable pub insert : String → ℤ → Dict → Dict
insert key value [] = (key, value) ∷ []
insert key value ((k, v) ∷ dict) =
    if str_eq k key then (key, value) ∷ dict else (k, v) ∷ insert key value dict

-- `map.delete(key)`
unfoldable pub erase : String → Dict → Dict
erase key [] = []
erase key ((k, v) ∷ dict) = if str_eq k key then dict else (k, v) ∷ erase key dict

-- The loop of `prune` over one map: the entries that expire after `now` stay.
unfoldable pub keep_live : ℤ → Dict → Dict
keep_live now [] = []
keep_live now ((k, v) ∷ dict) =
    if leb_ℤ v now then keep_live now dict else (k, v) ∷ keep_live now dict

-- No key occurs twice.
abbrev pub IsMap : Dict → Type 0
IsMap [] = Unit
IsMap ((k, v) ∷ dict) = (lookup k dict ≡ none) × IsMap dict

pub lookup-insert :
    (j k : String) (v : ℤ) (dict : Dict)
    → lookup j (insert k v dict) ≡ (if str_eq k j then some v else lookup j dict)
unfolding lookup insert
lookup-insert j k v [] = refl
lookup-insert j k v ((i, w) ∷ dict) =
    ground (arith, eq_iff k j, eq_iff i k, eq_iff i j, lookup-insert j k v dict)

pub lookup-erase_ne : (j k : String) (dict : Dict) → j ≢ k → lookup j (erase k dict) ≡ lookup j dict
unfolding lookup erase
lookup-erase_ne j k [] h = refl
lookup-erase_ne j k ((i, w) ∷ dict) h =
    ground (arith, eq_iff i k, eq_iff i j, lookup-erase_ne j k dict h)

pub lookup-erase_self : (k : String) (dict : Dict) → IsMap dict → lookup k (erase k dict) ≡ none
unfolding lookup erase
lookup-erase_self k [] m = refl
lookup-erase_self k ((i, w) ∷ dict) m = ground (arith, eq_iff i k, lookup-erase_self k dict m.1)

pub lookup-keep_live-none :
    (k : String) (now : ℤ) (dict : Dict)
    → lookup k dict ≡ none
    → lookup k (keep_live now dict) ≡ none
unfolding lookup keep_live
lookup-keep_live-none k now [] h = refl
lookup-keep_live-none k now ((i, w) ∷ dict) h = ground (arith, lookup-keep_live-none k now dict)

-- An entry survives exactly until it expires.
pub lookup-keep_live :
    (k : String) (now v : ℤ) (dict : Dict)
    → IsMap dict
    → lookup k dict ≡ some v
    → lookup k (keep_live now dict) ≡ (if leb_ℤ v now then none else some v)
unfolding lookup keep_live
lookup-keep_live k now v [] m h = cc
lookup-keep_live k now v ((i, w) ∷ dict) m h =
    ground (arith, eq_iff i k, lookup-keep_live k now v dict m.1, lookup-keep_live-none k now dict)

-- What is found after a prune was there, and has not expired.
pub lookup-keep_live_live :
    (k : String) (now v : ℤ) (dict : Dict) → lookup k (keep_live now dict) ≡ some v → now <ℤ v
unfolding lookup keep_live
lookup-keep_live_live k now v [] h = cc
lookup-keep_live_live k now v ((i, w) ∷ dict) h = ground (arith, lookup-keep_live_live k now v dict)

pub insert-IsMap : (k : String) (v : ℤ) (dict : Dict) → IsMap dict → IsMap (insert k v dict)
unfolding insert lookup
insert-IsMap k v [] m = (refl, tt)
insert-IsMap k v ((i, w) ∷ dict) m =
    ground (arith, eq_iff i k, eq_iff k i, insert-IsMap k v dict m.1, lookup-insert i k v dict)

pub erase-IsMap : (k : String) (dict : Dict) → IsMap dict → IsMap (erase k dict)
unfolding erase
erase-IsMap k [] m = tt
erase-IsMap k ((i, w) ∷ dict) m =
    ground (arith, eq_iff i k, eq_iff k i, erase-IsMap k dict m.1, lookup-erase_ne i k dict)

pub keep_live-IsMap : (now : ℤ) (dict : Dict) → IsMap dict → IsMap (keep_live now dict)
unfolding keep_live
keep_live-IsMap now [] m = tt
keep_live-IsMap now ((i, w) ∷ dict) m =
    ground (arith, keep_live-IsMap now dict m.1, lookup-keep_live-none i now dict)
