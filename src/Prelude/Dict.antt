-- ===== src/Prelude/Dict.antt =====
-- `HashMap`, as an association list with distinct keys. The order of the entries stands for the
-- iteration order of the map, which the program does not rely on.
use Prim.Native.Nat.{ℕ}
use mathlib.Core.Path.{◌≡◌, refl}
use mathlib.Core.Logic.{◌↔◌, ◌≢◌}
use mathlib.Core.Bool.{Bool, true}
use mathlib.Core.Option.{Option, none, some}
use mathlib.Core.List.{List, [], ◌∷◌}
use native.Mathlib.Omega.{arith}
use text.Mathlib.Text.{◌==◌ as str_eq}
use text.Mathlib.TextEquality.{eq_iff}
use Prim.Native.String.{String}
use vuinputd.Prelude.Tests.{◌==◌ as nat_beq, ==_iff, if◌then◌else◌}

-- `Eq` of a key type.
pub record Eq {ℓ} (A : Type ℓ) : Type ℓ where
  pub beq : A → A → Bool
  pub beq_iff : (a b : A) → (beq a b ≡ true) ↔ (a ≡ b)

instance abbrev pub nat_eq : Eq ℕ
nat_eq = record { beq = nat_beq; beq_iff = ==_iff }

instance abbrev pub string_eq : Eq String
string_eq = record { beq = str_eq; beq_iff = eq_iff }

abbrev pub Dict {ℓ κ} : Type ℓ → Type κ → Type (ℓ ⊔ κ)
Dict K V = List (K × V)

-- What `retain` leaves of the entry at a key.
abbrev pub kept {κ} : {V : Type κ} → (V → Bool) → Option V → Option V
kept keep none = none
kept keep (some v) = if keep v then some v else none

module _ {ℓ κ} {K : Type ℓ} {V : Type κ} ⦃e : Eq K⦄ where
  -- `map.get(&k)`
  unfoldable pub get : K → Dict K V → Option V
  get k [] = none
  get k ((j, v) ∷ m) = if e.beq j k then some v else get k m

  -- `map.insert(k, v)`
  unfoldable pub insert : K → V → Dict K V → Dict K V
  insert k v [] = (k, v) ∷ []
  insert k v ((j, w) ∷ m) = if e.beq j k then (k, v) ∷ m else (j, w) ∷ insert k v m

  -- `map.remove(&k)`
  unfoldable pub remove : K → Dict K V → Dict K V
  remove k [] = []
  remove k ((j, w) ∷ m) = let rest = remove k m in if e.beq j k then rest else (j, w) ∷ rest

  -- `map.retain(|_, v| keep(v))`
  unfoldable pub retain : (V → Bool) → Dict K V → Dict K V
  retain keep [] = []
  retain keep ((j, w) ∷ m) = let rest = retain keep m in if keep w then (j, w) ∷ rest else rest

  abbrev pub NodupKeys : Dict K V → Type κ
  NodupKeys [] = Unit
  NodupKeys ((k, _) ∷ m) = (get k m ≡ none) × NodupKeys m

  pub get-insert :
      (j k : K) (v : V) (m : Dict K V)
      → get j (insert k v m) ≡ (if e.beq k j then some v else get j m)
  unfolding get insert
  get-insert j k v [] = refl
  get-insert j k v ((i, w) ∷ m) =
      ground (arith, e.beq_iff k j, e.beq_iff i k, e.beq_iff i j, get-insert j k v m)

  pub get-insert_same : (k : K) (v : V) (m : Dict K V) → get k (insert k v m) ≡ some v
  get-insert_same k v m = ground (arith, e.beq_iff k k, get-insert k k v m)

  pub get-insert_other : (j k : K) (v : V) (m : Dict K V) → j ≢ k → get j (insert k v m) ≡ get j m
  get-insert_other j k v m h = ground (arith, e.beq_iff k j, get-insert j k v m)

  pub get-remove :
      (j k : K) (m : Dict K V) → get j (remove k m) ≡ (if e.beq k j then none else get j m)
  unfolding get remove
  get-remove j k [] = ground arith
  get-remove j k ((i, w) ∷ m) =
      ground (arith, e.beq_iff k j, e.beq_iff i k, e.beq_iff i j, get-remove j k m)

  -- An entry survives `retain` exactly when the test keeps its value.
  pub get-retain_absent :
      (j : K) (keep : V → Bool) (m : Dict K V) → get j m ≡ none → get j (retain keep m) ≡ none
  unfolding get retain
  get-retain_absent j keep [] h = refl
  get-retain_absent j keep ((i, w) ∷ m) h = ground (arith, get-retain_absent j keep m)

  pub get-retain :
      (j : K) (keep : V → Bool) (m : Dict K V)
      → NodupKeys m
      → get j (retain keep m) ≡ kept keep (get j m)
  unfolding get retain
  get-retain j keep [] u = refl
  get-retain j keep ((i, w) ∷ m) u =
      ground (arith, e.beq_iff i j, get-retain j keep m u.1, get-retain_absent j keep m)

  pub insert-NodupKeys : (k : K) (v : V) (m : Dict K V) → NodupKeys m → NodupKeys (insert k v m)
  unfolding get insert
  insert-NodupKeys k v [] u = (refl, tt)
  insert-NodupKeys k v ((j, w) ∷ m) u =
      ground (arith, e.beq_iff j k, insert-NodupKeys k v m u.1, get-insert j k v m, e.beq_iff k j)

  pub remove-NodupKeys : (k : K) (m : Dict K V) → NodupKeys m → NodupKeys (remove k m)
  unfolding remove
  remove-NodupKeys k [] u = tt
  remove-NodupKeys k ((j, w) ∷ m) u =
      ground (arith, remove-NodupKeys k m u.1, get-remove j k m, e.beq_iff k j)

  pub retain-NodupKeys : (keep : V → Bool) (m : Dict K V) → NodupKeys m → NodupKeys (retain keep m)
  unfolding retain
  retain-NodupKeys keep [] u = tt
  retain-NodupKeys keep ((j, w) ∷ m) u =
      ground (arith, retain-NodupKeys keep m u.1, get-retain_absent j keep m)
