-- ===== src/Http/Json/Listing.antt =====
-- Which lines /batteries has, by what the history knows and the configuration names.
use bms_bridge.Base.{
  ℕ, ◌≡◌, ◌⊎◌, refl, sym, List, [], ◌∷◌, some, some_inj, Bool, true, false, Bool-cases, inl, inr,
  ◌||◌, leb, All, All-map, All-map_both, Bytes, same_name, same_name_refl, same_name_eq,
}
use bms_bridge.Config.Types.{BatteryConfig}
use bms_bridge.Config.{seen}
use bms_bridge.Config.Validity.{Fresh}
use bms_bridge.History.{cached, insert_by_id, battery_list}
use bms_bridge.History.Aggregate.{Doubles}
use bms_bridge.Http.Json.Batteries.{config_named, battery_to_cjson, battery_trees}

abbrev pub Has : {A : Type 0} → A → List A → Type 0
Has a [] = ⊥
Has a (x ∷ xs) = (a ≡ x) ⊎ Has a xs

pub cached-Has :
    (name : Bytes) (id : ℕ) (names : List (Bytes × ℕ))
    → cached name names ≡ some id
    → Has (name, id) names
unfolding cached
cached-Has name id [] e = cc
cached-Has name id ((n, i) ∷ rest) e = elim (Bool-cases (same_name n name)) [
  | inl same ↦ inl (λ i. (sym (same_name_eq n name same) i, some_inj (sym (rw same at e)) i))
  | inr other ↦ inr (cached-Has name id rest (rw other at e))
]

-- The first two may change places.
Has-swap :
    {A : Type 0} (a x y : A) (zs : List A)
    → (a ≡ x) ⊎ ((a ≡ y) ⊎ Has a zs)
    → (a ≡ y) ⊎ ((a ≡ x) ⊎ Has a zs)
Has-swap a x y zs (inl e) = inr (inl e)
Has-swap a x y zs (inr (inl e)) = inl e
Has-swap a x y zs (inr (inr h)) = inr (inr h)

insert-Has :
    (a b : Bytes × ℕ) (bs : List (Bytes × ℕ)) → (a ≡ b) ⊎ Has a bs → Has a (insert_by_id b bs)
unfolding insert_by_id
insert-Has a b [] h = h
insert-Has a (n, id) ((m, i) ∷ rest) h = elim (Bool-cases (leb id i)) [
  | inl e ↦ rw e h
  | inr e ↦ rw e (later (Has-swap a (n, id) (m, i) rest h) (insert-Has a (n, id) rest))
]
  where
    later : {A : Type 0} {a y : A} {P Q : Type 0} → (a ≡ y) ⊎ P → (P → Q) → (a ≡ y) ⊎ Q
    later (inl e) f = inl e
    later (inr p) f = inr (f p)

pub battery_list-Has :
    (a : Bytes × ℕ) (names : List (Bytes × ℕ)) → Has a names → Has a (battery_list names)
unfolding battery_list
battery_list-Has a [] h = h
battery_list-Has a (b ∷ rest) (inl e) = insert-Has a b (battery_list rest) (inl e)
battery_list-Has a (b ∷ rest) (inr h) =
    insert-Has a b (battery_list rest) (inr (battery_list-Has a rest h))

module _ {F : Type 0} (N : Doubles F) (configs : List BatteryConfig) where
  pub battery_trees-Has :
      (name : Bytes) (id : ℕ) (names : List (Bytes × ℕ))
      → Has (name, id) names
      → Has (battery_to_cjson N id name (config_named name configs)) (battery_trees N configs names)
  unfolding battery_trees
  battery_trees-Has name id [] h = h
  battery_trees-Has name id ((n, i) ∷ rest) (inl e) =
      inl (λ j. battery_to_cjson N (e j).1 (e j).0 (config_named (e j).0 configs))
  battery_trees-Has name id ((n, i) ∷ rest) (inr h) = inr (battery_trees-Has name id rest h)

or_false : (a b : Bool) → (a || b) ≡ false → (a ≡ false) × (b ≡ false)
or_false true b e = cc
or_false false b e = (refl, e)

-- Names that are fresh are none of those before them.
Fresh-unseen :
    (names : List Bytes) (bcs : List BatteryConfig)
    → Fresh names bcs
    → All (λ (bc : BatteryConfig). seen bc.name names ≡ false) bcs
unfolding seen
Fresh-unseen names [] f = tt
Fresh-unseen names (bc ∷ bcs) f = (
  f.0,
  All-map (λ (x : BatteryConfig) e. (or_false (same_name bc.name x.name) (seen x.name names) e).1)
      bcs (Fresh-unseen (bc.name ∷ names) bcs f.1),
)

-- Each of them is the first with its name.
pub config_named-Fresh :
    (names : List Bytes) (bcs : List BatteryConfig)
    → Fresh names bcs
    → All (λ (bc : BatteryConfig). config_named bc.name bcs ≡ some bc) bcs
unfolding config_named seen
config_named-Fresh names [] f = tt
config_named-Fresh names (bc ∷ bcs) f = (
  rw (same_name_refl bc.name) refl,
  All-map_both {R = λ (x : BatteryConfig). config_named x.name (bc ∷ bcs) ≡ some x}
      (λ (x : BatteryConfig) e k.
        rw ((or_false (same_name bc.name x.name) (seen x.name names) e).0) k)
      bcs (Fresh-unseen (bc.name ∷ names) bcs f.1) (config_named-Fresh (bc.name ∷ names) bcs f.1),
)
