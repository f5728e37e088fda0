-- ===== src/Inverter/Addresses.antt =====
-- The map from module addresses to batteries.
use bms_bridge.Base.{
  ℕ, zero, suc, ◌+◌, ◌<◌, ◌≡◌, refl, sym, ◌∙◌, ap, subst, List, [], ◌∷◌, ◌++◌, some, some_inj,
  length, length-append, length-replicate, get_elem?, replicate, arith,
}
use bms_bridge.Pylontech.Responder.{module_count_for_capacity}
use bms_bridge.Inverter.{Battery, slot_of, add_slots, build_address_map, capacity_mah}

abbrev pub count_of : Battery → ℕ
count_of b = module_count_for_capacity (capacity_mah b)

-- The number of modules in front of a battery's first.
abbrev pub offset : List Battery → ℕ → ℕ
offset bs zero = 0
offset [] (suc k) = 0
offset (b ∷ bs) (suc k) = count_of b + offset bs k

get-replicate :
    {A : Type 0} (n : ℕ) (a : A) (m : ℕ) (rest : List A)
    → m < n
    → get_elem? (replicate n a ++ rest) m ≡ some a
get-replicate zero a m rest h = absurd (omega arith)
get-replicate (suc n) a zero rest h = refl
get-replicate (suc n) a (suc m) rest h = get-replicate n a m rest (omega arith)

get-past :
    {A : Type 0} (xs : List A) (m : ℕ) (rest : List A)
    → get_elem? (xs ++ rest) (length xs + m) ≡ get_elem? rest m
get-past [] m rest = ap (get_elem? rest) (omega arith)
get-past (x ∷ xs) m rest =
    let e : suc (length xs) + m ≡ suc (length xs + m) = omega arith in
    ap (get_elem? (x ∷ (xs ++ rest))) e ∙ get-past xs m rest

zero_add : (k : ℕ) → 0 + k ≡ k
zero_add k = omega arith

slot_count :
    (all : List Battery) (i : ℕ) (b : Battery) → (slot_of all i b).module_count ≡ count_of b
unfolding slot_of
slot_count all i b = refl

add_slots-lookup :
    (all : List Battery) (i : ℕ) (bs : List Battery) (k m : ℕ) (b : Battery)
    → get_elem? bs k ≡ some b
    → m < count_of b
    → get_elem? (add_slots all i bs) (offset bs k + m) ≡ some (slot_of all (i + k) b)
unfolding add_slots
add_slots-lookup all i [] k m b e lt = cc
add_slots-lookup all i (c ∷ cs) zero m b e lt =
    let same : c ≡ b = some_inj e in
    let at_m : 0 + m ≡ m = omega arith in
    let at_i : i + 0 ≡ i = omega arith in
    let got =
      get-replicate (slot_of all i b).module_count (slot_of all i b) m (add_slots all (i + 1) cs)
        (subst (λ n. m < n) (sym (slot_count all i b)) lt) in
    rw (at_m, at_i)
      (subst
        (λ d.
          get_elem?
            (replicate (slot_of all i d).module_count (slot_of all i d) ++ add_slots all (i + 1) cs)
            m
          ≡ some (slot_of all i b))
        (sym same) got)
add_slots-lookup all i (c ∷ cs) (suc k) m b e lt =
    let block = replicate (slot_of all i c).module_count (slot_of all i c) in
    let size : length block ≡ count_of c =
      length-replicate (slot_of all i c).module_count (slot_of all i c) ∙ slot_count all i c in
    let place : count_of c + offset cs k + m ≡ length block + (offset cs k + m) =
      omega (arith, size) in
    let number : i + suc k ≡ i + 1 + k = omega arith in
    rw (number) (
      ap (get_elem? (block ++ add_slots all (i + 1) cs)) place
      ∙ get-past block (offset cs k + m) (add_slots all (i + 1) cs)
      ∙ add_slots-lookup all (i + 1) cs k m b e lt)

-- Every module of every battery has one address: battery `k` has the count_of addresses behind
-- those of the batteries in front of it, and each leads to its own slot.
pub build_address_map-lookup :
    (batteries : List Battery) (k m : ℕ) (b : Battery)
    → get_elem? batteries k ≡ some b
    → m < count_of b
    → get_elem? (build_address_map batteries) (offset batteries k + m)
      ≡ some (slot_of batteries k b)
unfolding build_address_map
build_address_map-lookup batteries k m b e lt =
    subst
      (λ i.
        get_elem? (add_slots batteries 0 batteries) (offset batteries k + m)
        ≡ some (slot_of batteries i b))
      (zero_add k) (add_slots-lookup batteries 0 batteries k m b e lt)

-- The modules of all the batteries together.
abbrev pub total_modules : List Battery → ℕ
total_modules [] = 0
total_modules (b ∷ bs) = count_of b + total_modules bs

add_slots-length :
    (all : List Battery) (i : ℕ) (bs : List Battery)
    → length (add_slots all i bs) ≡ total_modules bs
unfolding add_slots
add_slots-length all i [] = refl
add_slots-length all i (b ∷ bs) = omega (
  arith,
  length-append (replicate (slot_of all i b).module_count (slot_of all i b))
      (add_slots all (i + 1) bs),
  length-replicate (slot_of all i b).module_count (slot_of all i b),
  slot_count all i b,
  add_slots-length all (i + 1) bs,
)

-- There are as many addresses as all the batteries have modules.
pub build_address_map-length :
    (batteries : List Battery) → length (build_address_map batteries) ≡ total_modules batteries
unfolding build_address_map
build_address_map-length batteries = add_slots-length batteries 0 batteries
