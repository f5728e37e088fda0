-- ===== src/History/Opening/Outcomes.antt =====
-- When the history opens, and where it throws.
use bms_bridge.Base.{
  ℕ, ◌≡◌, refl, ap, subst, ◌∙◌, List, [], ◌∷◌, ◌++◌, Option, none, some, some_inj, true, false,
  Bool-cases, Option-cases, inl, inr, Bytes,
}
use bms_bridge.History.Opening.{
  Statement, opening_statements, insert_sample, insert_cell, Opener, Opened, cannot_open,
  cannot_execute, cannot_prepare, opened, execute, history_over, prepare_statements,
  behind_statements, open_db, open_history,
}

module _ {D : Type 0} (O : Opener D) where
  -- The statements succeed, one behind the other, from a database to another.
  abbrev pub Executes : List Statement → D → D → Type 0
  Executes [] d e = d ≡ e
  Executes (s ∷ ss) d e = ((O.exec s d).0 ≡ true) × Executes ss (O.exec s d).1 e

  -- Some succeed, and the one behind them fails.
  abbrev pub FailsAt : Statement → List Statement → D → Type 0
  FailsAt s ss d =
      (before : List Statement) × (after : List Statement) × (e : D) × (ss ≡ before ++ s ∷ after)
      × Executes before d e
      × ((O.exec s e).0 ≡ false)

  execute-FailsAt :
      (ss : List Statement) (d : D) (s : Statement) → (execute O ss d).0 ≡ some s → FailsAt s ss d
  unfolding execute
  execute-FailsAt [] d s q = cc
  execute-FailsAt (t ∷ ss) d s q = elim (Bool-cases (O.exec t d).0) [
    | inr f ↦
        let same : t ≡ s = some_inj (rw f at q) in
        ([], ss, d, ap (λ u. u ∷ ss) same, refl, subst (λ u. (O.exec u d).0 ≡ false) same f)
    | inl t_ok ↦
        let (before, after, e, split, x, f) = execute-FailsAt ss (O.exec t d).1 s (rw t_ok at q) in
        (t ∷ before, after, e, ap (λ us. t ∷ us) split, (t_ok, x), f)
  ]

  execute-Executes :
      (ss : List Statement) (d : D) → (execute O ss d).0 ≡ none → Executes ss d (execute O ss d).1
  unfolding execute
  execute-Executes [] d q = refl
  execute-Executes (t ∷ ss) d q = elim (Bool-cases (O.exec t d).0) [
    | inr f ↦ absurd (some_ne t (rw f at q))
    | inl t_ok ↦ rw t_ok (refl, execute-Executes ss (O.exec t d).1 (rw t_ok at q))
  ]
    where
      some_ne : (s : Statement) → some s ≡ none → ⊥
      some_ne s e = cc

  Executes-execute : (ss : List Statement) (d e : D) → Executes ss d e → execute O ss d ≡ (none, e)
  unfolding execute
  Executes-execute [] d e x = ap (λ u. (none, u)) x
  Executes-execute (s ∷ ss) d e x = rw (x.0, Executes-execute ss (O.exec s d).1 e x.1) refl

  -- All that the constructor needs, from the file's database to the one that is kept.
  pub record Ready (path : Bytes) (d e : D) : Type 0 where
    pub opens : O.open_readwrite path ≡ some d
    pub executes : Executes opening_statements d e
    pub sample : O.prepare insert_sample e ≡ true
    pub cell : O.prepare insert_cell e ≡ true

  -- What the constructor has met, by what it does.
  abbrev pub Met : Bytes → ℕ → Opened D → Type 0
  Met path ram_window cannot_open = O.open_readwrite path ≡ none
  Met path ram_window (cannot_execute s) =
      (d : D) × (O.open_readwrite path ≡ some d) × FailsAt s opening_statements d
  Met path ram_window (cannot_prepare q) =
      (d : D) × (e : D) × (O.open_readwrite path ≡ some d)
      × Executes opening_statements d e
      × (O.prepare q e ≡ false)
  Met path ram_window (opened reader h) =
      (d : D) × Ready path d h.db
      × (h ≡ history_over O ram_window h.db)
      × (reader ≡ O.open_readonly path h.db)

  prepare_statements-Met :
      (path : Bytes) (ram_window : ℕ) (d e : D)
      → O.open_readwrite path ≡ some d
      → Executes opening_statements d e
      → Met path ram_window (prepare_statements O ram_window (O.open_readonly path e) e)
  unfolding prepare_statements history_over
  prepare_statements-Met path ram_window d e found x =
      elim (Bool-cases (O.prepare insert_sample e)) [
        | inr p ↦ rw (p, prepare_statements) (d, e, found, x, p)
        | inl p ↦ elim (Bool-cases (O.prepare insert_cell e)) [
          | inr q ↦ rw (p, q, prepare_statements) (d, e, found, x, q)
          | inl q ↦
              rw (p, q, prepare_statements)
                (d, record { opens = found; executes = x; sample = p; cell = q }, refl, refl)
        ]
      ]

  behind_statements-Met :
      (path : Bytes) (ram_window : ℕ) (d : D) (r : Option Statement × D)
      → O.open_readwrite path ≡ some d
      → execute O opening_statements d ≡ r
      → Met path ram_window (behind_statements O path ram_window r)
  unfolding behind_statements
  behind_statements-Met path ram_window d (some s, e) found q =
      (d, found, execute-FailsAt opening_statements d s (ap (λ r. r.0) q))
  behind_statements-Met path ram_window d (none, e) found q =
      prepare_statements-Met path ram_window d e found (
        subst (Executes opening_statements d) (ap (λ r. r.1) q)
          (execute-Executes opening_statements d (ap (λ r. r.0) q)))

  open_db-Met :
      (path : Bytes) (ram_window : ℕ) (d : D)
      → O.open_readwrite path ≡ some d
      → Met path ram_window (open_db O path ram_window d)
  unfolding open_db
  open_db-Met path ram_window d found =
      behind_statements-Met path ram_window d (execute O opening_statements d) found refl

  open_db-opens :
      (path : Bytes) (ram_window : ℕ) (d e : D)
      → Ready path d e
      → open_db O path ram_window d ≡ opened (O.open_readonly path e) (history_over O ram_window e)
  unfolding open_db behind_statements prepare_statements
  open_db-opens path ram_window d e r =
      ap (behind_statements O path ram_window) (Executes-execute opening_statements d e r.executes)
      ∙ rw (r.sample, r.cell) refl

  -- A constructor that throws has met what its exception says: no file, a statement that fails
  -- behind those that succeed, or a statement that cannot be prepared behind them all. A history that
  -- opens has executed all five in their order and prepared both, and it opens whenever these
  -- succeed, also when its read-only connection does not open.
  pub open_history-Met :
      (path : Bytes) (ram_window : ℕ)
      → Met path ram_window (open_history O path ram_window)
        × ((d e : D)
            → Ready path d e
            → open_history O path ram_window
              ≡ opened (O.open_readonly path e) (history_over O ram_window e))
  unfolding open_history
  open_history-Met path ram_window = (
    (elim (Option-cases (O.open_readwrite path)) [
      | inl n ↦ rw (n, open_history) n
      | inr (d, n) ↦ rw (n, open_history) (open_db-Met path ram_window d n)
    ]),
    (λ d e r. rw (r.opens, open_history) (open_db-opens path ram_window d e r)),
  )
