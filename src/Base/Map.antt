-- ===== src/Base/Map.antt =====
-- A map as an association list; `insert` keeps an entry's place, and a new entry goes last.
use mathlib.Core.Path.{◌≡◌, refl, subst}
use mathlib.Core.Logic.{◌≢◌, ite, if_pos, if_neg}
use mathlib.Core.Option.{Option, none, some}
use mathlib.Core.List.{List, [], ◌∷◌}
use native.Mathlib.Omega.{arith}
use rust_ws_server.Base.Lists.{All}

abbrev pub Map : Type 0 → Type 0 → Type 0
Map K V = List (K × V)

module _ {K V : Type 0} (dec : Discrete K) where
  unfoldable pub get : K → Map K V → Option V
  get k [] = none
  get k ((j, v) ∷ m) = ite (dec j k) (some v) (get k m)

  unfoldable pub insert : K → V → Map K V → Map K V
  insert k v [] = (k, v) ∷ []
  insert k v ((j, w) ∷ m) = ite (dec j k) ((k, v) ∷ m) ((j, w) ∷ insert k v m)

  -- Every entry with the key, so that the law needs no distinct keys.
  unfoldable pub remove : K → Map K V → Map K V
  remove k [] = []
  remove k ((j, w) ∷ m) = ite (dec j k) (remove k m) ((j, w) ∷ remove k m)

  pub get-insert_self : (k : K) (v : V) (m : Map K V) → get k (insert k v m) ≡ some v
  unfolding get insert
  get-insert_self k v [] = ground arith
  get-insert_self k v ((j, w) ∷ m) = ground (arith, get-insert_self k v m)

  pub get-insert_ne : (j k : K) (v : V) (m : Map K V) → j ≢ k → get j (insert k v m) ≡ get j m
  unfolding get insert
  get-insert_ne j k v [] h = ground arith
  get-insert_ne j k v ((i, w) ∷ m) h = ground (arith, get-insert_ne j k v m h)

  pub get-insert :
      (j k : K) (v : V) (m : Map K V) → get j (insert k v m) ≡ ite (dec k j) (some v) (get j m)
  unfolding get insert
  get-insert j k v [] = refl
  get-insert j k v ((i, w) ∷ m) = ground (arith, get-insert j k v m)

  pub get-remove_self : (k : K) (m : Map K V) → get k (remove k m) ≡ none
  unfolding get remove
  get-remove_self k [] = refl
  get-remove_self k ((j, w) ∷ m) = ground (arith, get-remove_self k m)

  pub get-remove_ne : (j k : K) (m : Map K V) → j ≢ k → get j (remove k m) ≡ get j m
  unfolding get remove
  get-remove_ne j k [] h = refl
  get-remove_ne j k ((i, w) ∷ m) h = ground (arith, get-remove_ne j k m h)

  -- Every value in the map has the property.
  abbrev pub Values : (V → Type 0) → Map K V → Type 0
  Values P = All λ e. P e.1

  pub Values-get :
      (P : V → Type 0) (k : K) (m : Map K V) {v : V} → Values P m → get k m ≡ some v → P v
  unfolding get
  Values-get P k [] h e = cc
  Values-get P k ((j, w) ∷ m) h e = elim (dec j k) [
    | yes p ↦ subst P (ground arith) h.0
    | no p ↦ Values-get P k m h.1 (ground arith)
  ]

  pub Values-insert :
      (P : V → Type 0) (k : K) (v : V) (m : Map K V) → Values P m → P v → Values P (insert k v m)
  unfolding insert
  Values-insert P k v [] h p = (p, tt)
  Values-insert P k v ((j, w) ∷ m) h p = elim (dec j k) [
    | yes e ↦ rw (if_pos _ e) (p, h.1)
    | no ne ↦ rw (if_neg _ ne) (h.0, Values-insert P k v m h.1 p)
  ]

  pub Values-remove : (P : V → Type 0) (k : K) (m : Map K V) → Values P m → Values P (remove k m)
  unfolding remove
  Values-remove P k [] h = tt
  Values-remove P k ((j, w) ∷ m) h = elim (dec j k) [
    | yes e ↦ rw (if_pos _ e) (Values-remove P k m h.1)
    | no ne ↦ rw (if_neg _ ne) (h.0, Values-remove P k m h.1)
  ]
