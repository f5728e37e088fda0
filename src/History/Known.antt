-- ===== src/History/Known.antt =====
-- The batteries whose ids the history's cache has.
use bms_bridge.Base.{
  ℕ, ◌≡◌, refl, sym, ap, subst, ◌∙◌, List, Option, none, some, Option-cases, true, Bool-cases, inl,
  inr, Bytes, same_name, same_name_refl,
}
use bms_bridge.History.{
  Sqlite, History, cached, resolve, remember, battery_row_id, ensure_battery_id,
}

-- The history knows an id of the battery.
abbrev pub Known : Bytes → List (Bytes × ℕ) → Type 0
Known name names = (id : ℕ) × (cached name names ≡ some id)

module _ {D : Type 0} (S : Sqlite D) where
  -- The INSERT of a battery that has no row never fails.
  abbrev pub Inserts : Type 0
  Inserts =
      (name : Bytes) (d : D)
      → S.find_battery name d ≡ none
      → (id : ℕ) × ((S.insert_battery name d).0 ≡ some id)

  remember-Known :
      (name other : Bytes) (id : Option ℕ) (names : List (Bytes × ℕ))
      → Known name names
      → Known name (remember S other id names)
  unfolding cached
  remember-Known name other none names k = k
  remember-Known name other (some id) names (i, e) = elim (Bool-cases (same_name other name)) [
    | inl same ↦ (id, rw same refl)
    | inr different ↦ (i, rw different e)
  ]

  row_id-old :
      (name : Bytes) (h : History D) (id : ℕ)
      → cached name h.names ≡ some id
      → (battery_row_id S true name h).1.names ≡ h.names
  unfolding battery_row_id
  row_id-old name h id e = rw (e, battery_row_id) refl

  row_id-new :
      (name : Bytes) (h : History D)
      → cached name h.names ≡ none
      → (battery_row_id S true name h).1.names
        ≡ remember S name (resolve S true name h.db).0 h.names
  unfolding battery_row_id
  row_id-new name h e = rw (e, battery_row_id) refl

  pub ensure-keeps :
      (name other : Bytes) (h : History D)
      → Known name h.names
      → Known name (ensure_battery_id S other h).1.names
  unfolding ensure_battery_id
  ensure-keeps name other h k = elim (Option-cases (cached other h.names)) [
    | inl e ↦
        subst (Known name) (sym (row_id-new other h e))
          (remember-Known name other (resolve S true other h.db).0 h.names k)
    | inr (id, e) ↦ subst (Known name) (sym (row_id-old other h id e)) k
  ]

  resolve-finds :
      Inserts → (name : Bytes) (d : D) → (id : ℕ) × ((resolve S true name d).0 ≡ some id)
  unfolding resolve
  resolve-finds ins name d = elim (Option-cases (S.find_battery name d)) [
    | inl e ↦ rw (e, resolve) (ins name d e)
    | inr (id, e) ↦ (id, rw (e, resolve) refl)
  ]

  pub ensure-Known :
      Inserts → (name : Bytes) (h : History D) → Known name (ensure_battery_id S name h).1.names
  unfolding ensure_battery_id cached
  ensure-Known ins name h = elim (Option-cases (cached name h.names)) [
    | inl e ↦
        let (id, found) = resolve-finds ins name h.db in
        subst (Known name) (sym (row_id-new name h e ∙ ap (λ o. remember S name o h.names) found))
          (id, rw (same_name_refl name) refl)
    | inr (id, e) ↦ subst (Known name) (sym (row_id-old name h id e)) (id, e)
  ]
