-- ===== src/History/Window.antt =====
-- The samples in memory are those of the window.
use bms_bridge.Base.{
  ℕ, ◌-◌, ◌≤◌, ◌≡◌, refl, sym, ap, ◌∙◌, List, [], ◌∷◌, ◌++◌, append_assoc, append-nil, Option-cases,
  true, Bool-cases, inl, inr, not, ◌&&◌, ltb, if◌then◌else◌, All, All-append, Bytes, same_name,
  arith,
}
use bms_bridge.History.Rows.{TelemetrySample}
use bms_bridge.History.{Sqlite, History, trim, keep_in_ram, recent, cached, battery_row_id, append}

-- The appends of a run: the clock at each, and the sample.
abbrev pub Appends : Type 0
Appends = List (ℕ × TelemetrySample)

-- The clock does not run backwards, nor do the samples' times.
abbrev pub Chronological : ℕ → ℕ → Appends → Type 0
Chronological now ts [] = Unit
Chronological now ts ((n, s) ∷ es) = (now ≤ n) × (ts ≤ s.ts) × Chronological n s.ts es

-- What is in memory behind them.
abbrev pub remembered : ℕ → Appends → List TelemetrySample → List TelemetrySample
remembered window [] ram = ram
remembered window ((n, s) ∷ es) ram = remembered window es (keep_in_ram n window s ram)

abbrev pub last_clock : ℕ → Appends → ℕ
last_clock now [] = now
last_clock now ((n, s) ∷ es) = last_clock n es

abbrev pub samples : Appends → List TelemetrySample
samples [] = []
samples ((n, s) ∷ es) = s ∷ samples es

-- The samples of a list whose time is the cutoff or later.
abbrev pub since : ℕ → List TelemetrySample → List TelemetrySample
since cutoff [] = []
since cutoff (s ∷ ss) = let rest = since cutoff ss in if ltb s.ts cutoff then rest else s ∷ rest

abbrev From : ℕ → List TelemetrySample → Type 0
From ts = All (λ (s : TelemetrySample). ts ≤ s.ts)

abbrev To : ℕ → List TelemetrySample → Type 0
To ts = All (λ (s : TelemetrySample). s.ts ≤ ts)

abbrev Sorted : List TelemetrySample → Type 0
Sorted [] = Unit
Sorted (s ∷ ss) = From s.ts ss × Sorted ss

From-since :
    (cutoff ts : ℕ) (ss : List TelemetrySample) → cutoff ≤ ts → From ts ss → since cutoff ss ≡ ss
From-since cutoff ts [] l h = refl
From-since cutoff ts (s ∷ ss) l h = ground (arith, From-since cutoff ts ss l h.1)

trim-since : (cutoff : ℕ) (ss : List TelemetrySample) → Sorted ss → trim cutoff ss ≡ since cutoff ss
unfolding trim
trim-since cutoff [] h = refl
trim-since cutoff (s ∷ ss) h = elim (Bool-cases (ltb s.ts cutoff)) [
  | inl e ↦ rw e (trim-since cutoff ss h.1)
  | inr e ↦ rw e (ap (◌∷◌ s) (sym (From-since cutoff s.ts ss (ground arith) h.0)))
]

since-since :
    (c d : ℕ) (ss : List TelemetrySample) (s : TelemetrySample)
    → c ≤ d
    → since d (since c ss ++ s ∷ []) ≡ since d (ss ++ s ∷ [])
since-since c d [] s l = refl
since-since c d (t ∷ ss) s l = ground (arith, since-since c d ss s l)

From-filter : (ts c : ℕ) (ss : List TelemetrySample) → From ts ss → From ts (since c ss)
From-filter ts c [] h = tt
From-filter ts c (s ∷ ss) h = ground (arith, From-filter ts c ss h.1)

Sorted-filter : (c : ℕ) (ss : List TelemetrySample) → Sorted ss → Sorted (since c ss)
Sorted-filter c [] h = tt
Sorted-filter c (s ∷ ss) h = ground (arith, Sorted-filter c ss h.1, From-filter s.ts c ss h.0)

To-filter : (ts c : ℕ) (ss : List TelemetrySample) → To ts ss → To ts (since c ss)
To-filter ts c [] h = tt
To-filter ts c (s ∷ ss) h = ground (arith, To-filter ts c ss h.1)

Sorted-snoc :
    (ss : List TelemetrySample) (s : TelemetrySample)
    → Sorted ss
    → To s.ts ss
    → Sorted (ss ++ s ∷ [])
Sorted-snoc [] s h t = (tt, tt)
Sorted-snoc (x ∷ ss) s h t = (All-append _ ss (s ∷ []) h.0 (t.0, tt), Sorted-snoc ss s h.1 t.1)

To-later : (t u : ℕ) (ss : List TelemetrySample) → t ≤ u → To t ss → To u ss
To-later t u [] l h = tt
To-later t u (s ∷ ss) l h = (omega (arith, h.0), To-later t u ss l h.1)

-- One append to memory that holds the window of the samples so far.
keep-since :
    (n now window : ℕ) (s : TelemetrySample) (all : List TelemetrySample)
    → now ≤ n
    → Sorted all
    → To s.ts all
    → keep_in_ram n window s (since (now - window) all) ≡ since (n - window) (all ++ s ∷ [])
unfolding keep_in_ram
keep-since n now window s all l h t =
    trim-since (n - window) (since (now - window) all ++ s ∷ []) (
      Sorted-snoc (since (now - window) all) s (Sorted-filter (now - window) all h)
        (To-filter s.ts (now - window) all t))
    ∙ since-since (now - window) (n - window) all s (omega arith)

remembered-from :
    (window now ts : ℕ) (all : List TelemetrySample) (es : Appends)
    → Chronological now ts es
    → Sorted all
    → To ts all
    → remembered window es (since (now - window) all)
      ≡ since (last_clock now es - window) (all ++ samples es)
remembered-from window now ts all [] c h t = ap (since (now - window)) (sym (append-nil all))
remembered-from window now ts all ((n, s) ∷ es) c h t =
    let later = To-later ts s.ts all c.1 t in
    ap (remembered window es) (keep-since n now window s all c.0 h later)
    ∙ remembered-from window n s.ts (all ++ s ∷ []) es c.2 (Sorted-snoc all s h later)
        (All-append _ all (s ∷ []) later (omega arith, tt))
    ∙ ap (since (last_clock n es - window)) (append_assoc all (s ∷ []) (samples es))

-- The samples of a battery from the cutoff on.
abbrev pub wanted : Bytes → ℕ → List TelemetrySample → List TelemetrySample
wanted name cutoff [] = []
wanted name cutoff (s ∷ ss) =
    let rest = wanted name cutoff ss in
    if not (ltb s.ts cutoff) && same_name s.battery_id name then s ∷ rest else rest

recent-since :
    (name : Bytes) (cutoff : ℕ) (ss : List TelemetrySample)
    → recent name (since cutoff ss) ≡ wanted name cutoff ss
unfolding recent
recent-since name cutoff [] = refl
recent-since name cutoff (s ∷ ss) = ground (arith, recent-since name cutoff ss)

module _ {D : Type 0} (S : Sqlite D) where
  -- The appends of a run.
  abbrev pub run : Appends → History D → History D
  run [] h = h
  run ((n, s) ∷ es) h = run es (append S n s.battery_id s.ts s.cells s.pack h)

  row_id-ram :
      (name : Bytes) (h : History D)
      → let k = (battery_row_id S true name h).1 in (k.ram ≡ h.ram) × (k.ram_window ≡ h.ram_window)
  unfolding battery_row_id
  row_id-ram name h = elim (Option-cases (cached name h.names)) [
    | inl e ↦ rw (e, battery_row_id) (refl, refl)
    | inr (id, e) ↦ rw (e, battery_row_id) (refl, refl)
  ]

  append-ram :
      (n : ℕ) (s : TelemetrySample) (h : History D)
      → let k = append S n s.battery_id s.ts s.cells s.pack h in
        (k.ram ≡ keep_in_ram n h.ram_window s h.ram) × (k.ram_window ≡ h.ram_window)
  unfolding append
  append-ram n s h =
      let kept : History D = record h { ram = keep_in_ram n h.ram_window s h.ram } in
      let kept_ram = row_id-ram s.battery_id kept in
      elim (Option-cases (battery_row_id S true s.battery_id kept).0) [
        | inl e ↦ rw (e, append) kept_ram
        | inr (id, e) ↦ rw (e, append) kept_ram
      ]

  run-remembered :
      (es : Appends) (h : History D) → (run es h).ram ≡ remembered h.ram_window es h.ram
  run-remembered [] h = refl
  run-remembered ((n, s) ∷ es) h =
      let step = append-ram n s h in
      run-remembered es (append S n s.battery_id s.ts s.cells s.pack h)
      ∙ (λ i. remembered (step.1 i) es (step.0 i))

  -- After any run of appends to an empty memory, in which neither the clock nor the samples' times
  -- run backwards, and whatever the database does: recent() yields exactly the battery's appended
  -- samples that are not older than the window at the last append, in their order.
  pub recent-run :
      (es : Appends) (name : Bytes) (h : History D)
      → h.ram ≡ []
      → Chronological 0 0 es
      → recent name (run es h).ram ≡ wanted name (last_clock 0 es - h.ram_window) (samples es)
  recent-run es name h e c =
      ap (recent name) (
        run-remembered es h
        ∙ ap (remembered h.ram_window es) e
        ∙ remembered-from h.ram_window 0 0 [] es c tt tt)
      ∙ recent-since name (last_clock 0 es - h.ram_window) (samples es)
