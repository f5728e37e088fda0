-- ===== src/Http/Pages/Backwards.antt =====
-- The pages of one request id go backwards in time, and come to an end.
use bms_bridge.Base.{
  ℕ, ◌+◌, ◌-◌, ◌≤◌, ◌<◌, ◌≡◌, refl, sym, ap, ◌∙◌, List, [], ◌∷◌, Option, none, some, some_inj,
  bind-eq-some, subst, Option-cases, inl, inr, All, Bytes, length, same_name_refl, arith,
}
use bms_bridge.History.{History}
use bms_bridge.History.Rows.{TelemetrySample}
use bms_bridge.History.Range.{
  Reader, IsSelect, range_by_id, range_by_id-Within, Within, NewestFirst,
}
use bms_bridge.Http.Pages.{
  PageCtx, Contexts, page, put, erase, step_of, oldest, page_of, renew, renewed, advance,
  ctx_ttl_ms, handle_history_next,
}

-- `t` is the time of a sample of the list, and none is older.
abbrev pub NoneBefore : ℕ → List TelemetrySample → Type 0
NoneBefore t = All (λ (s : TelemetrySample). t ≤ s.ts)

NoneBefore-to : (t u : ℕ) (ss : List TelemetrySample) → t ≤ u → NoneBefore u ss → NoneBefore t ss
NoneBefore-to t u [] l h = tt
NoneBefore-to t u (s ∷ ss) l h = (omega (arith, h.0), NoneBefore-to t u ss l h.1)

oldest-some :
    (s : TelemetrySample) (ss : List TelemetrySample) → (t : ℕ) × (oldest (s ∷ ss) ≡ some t)
unfolding oldest
oldest-some s ss = elim (Option-cases (oldest ss)) [
  | inl o ↦ (s.ts, rw (o, oldest) refl)
  | inr (u, o) ↦ (u, rw (o, oldest) refl)
]

oldest-Within :
    (a b : ℕ) (ss : List TelemetrySample) (t : ℕ)
    → Within a b ss
    → NewestFirst ss
    → oldest ss ≡ some t
    → (a ≤ t) × (t < b) × NoneBefore t ss
unfolding oldest
oldest-Within a b [] t w n e = cc
oldest-Within a b (s ∷ []) t w n e =
    let q = some_inj e in (omega arith, omega arith, (omega arith, tt))
oldest-Within a b (s ∷ (r ∷ ss)) t w n e =
    let (u, o) = oldest-some r ss in
    let f : oldest (r ∷ ss) ≡ some t =
      o ∙ ap (λ (o : Option ℕ). elim o [ none ↦ some s.ts | some v ↦ some v ]) (sym o) ∙ e in
    let (low, high, rest) = oldest-Within a b (r ∷ ss) t w.1 n.1 f in
    (low, high, (omega (arith, n.0.0, rest.0), rest))

-- What a page leaves: the context, if it is kept, goes on below every sample that was shown.
abbrev pub GoesOn : PageCtx → List TelemetrySample → PageCtx → Type 0
GoesOn ctx shown later =
    (later.battery_id ≡ ctx.battery_id)
    × (later.time_start ≡ ctx.time_start)
    × (later.count ≡ ctx.count)
    × (later.time_end < ctx.time_end)
    × (ctx.time_start ≤ later.time_end)
    × NoneBefore later.time_end shown

renew-some :
    (now : ℕ) (ctx : PageCtx) (back : ℕ) (probe : List TelemetrySample) (later : PageCtx)
    → renew now ctx back probe ≡ some later
    → record ctx { time_end = back; expires_at = now + ctx_ttl_ms } ≡ later
renew-some now ctx back [] later e = cc
renew-some now ctx back (s ∷ ss) later e = some_inj e

renewed-own : (id : Bytes) (o : Option PageCtx) (ctxs : Contexts) → renewed id o ctxs id ≡ o
unfolding put erase
renewed-own id none ctxs = rw (same_name_refl id) refl
renewed-own id (some ctx) ctxs = rw (same_name_refl id) refl

module _ {D : Type 0} (R : Reader D) (w : IsSelect R) where
  page_of-Within :
      (ctx : PageCtx) (h : History D)
      → Within ctx.time_start ctx.time_end (page_of R ctx h) × NewestFirst (page_of R ctx h)
  unfolding page_of
  page_of-Within ctx h =
      range_by_id-Within R w ctx.battery_id ctx.time_start ctx.time_end ctx.count
        (step_of ctx.time_start ctx.time_end ctx.count) h

  advance-GoesOn :
      (now : ℕ) (ctx : PageCtx) (shown : List TelemetrySample) (h : History D) (later : PageCtx)
      → Within ctx.time_start ctx.time_end shown
      → NewestFirst shown
      → advance R now ctx shown h ≡ some later
      → GoesOn ctx shown later
  unfolding advance
  advance-GoesOn now ctx shown h later i n e =
      let (back, o, f) = bind-eq-some (oldest shown) _ e in
      let (low, high, none_before) = oldest-Within ctx.time_start ctx.time_end shown back i n o in
      subst (GoesOn ctx shown)
        (renew-some now ctx back (range_by_id R ctx.battery_id ctx.time_start back 1 0 h) later f)
        (refl, refl, refl, high, low, none_before)

  after-next :
      (now : ℕ) (req_id : Bytes) (h : History D) (ctxs : Contexts) (ctx : PageCtx)
      → ctxs req_id ≡ some ctx
      → let (reply, left) = handle_history_next R now req_id h ctxs in
        (reply ≡ page req_id (page_of R ctx h))
        × (left req_id ≡ advance R now ctx (page_of R ctx h) h)
  unfolding handle_history_next
  after-next now req_id h ctxs ctx e =
      rw (e, handle_history_next)
        (refl, renewed-own req_id (advance R now ctx (page_of R ctx h) h) ctxs)

  -- A request for the next page of a context, with what the SELECTs say: the page shown lies between
  -- the context's times; and if the context is kept, it is for the same battery, start and count,
  -- and its new end is before the old one, not before the start, and not behind any sample shown.
  pub next-GoesOn :
      (now : ℕ) (req_id : Bytes) (h : History D) (ctxs : Contexts) (ctx : PageCtx)
      → ctxs req_id ≡ some ctx
      → let (reply, left) = handle_history_next R now req_id h ctxs in
        (reply ≡ page req_id (page_of R ctx h))
        × Within ctx.time_start ctx.time_end (page_of R ctx h)
        × ((later : PageCtx) → left req_id ≡ some later → GoesOn ctx (page_of R ctx h) later)
  next-GoesOn now req_id h ctxs ctx e =
      let (reply, left) = after-next now req_id h ctxs ctx e in
      let (within, newest) = page_of-Within ctx h in
      (
        reply,
        within,
        (λ later k. advance-GoesOn now ctx (page_of R ctx h) h later within newest (sym left ∙ k)),
      )

  -- The requests of a client that asks for the next page again and again, each with the clock and
  -- the history that it meets.
  abbrev pub follow : List (ℕ × History D) → Bytes → Contexts → Contexts
  follow [] req_id ctxs = ctxs
  follow ((now, h) ∷ visits) req_id ctxs =
      follow visits req_id (handle_history_next R now req_id h ctxs).1

  follow-none :
      (visits : List (ℕ × History D)) (req_id : Bytes) (ctxs : Contexts)
      → ctxs req_id ≡ none
      → follow visits req_id ctxs req_id ≡ none
  unfolding handle_history_next
  follow-none [] req_id ctxs e = e
  follow-none ((now, h) ∷ visits) req_id ctxs e =
      rw (e, handle_history_next) (follow-none visits req_id ctxs e)

  -- However the history changes meanwhile, with what the SELECTs say: as many requests for the next
  -- page as there are milliseconds between a context's times, and one more, end the context.
  pub follow-ends :
      (visits : List (ℕ × History D)) (req_id : Bytes) (ctxs : Contexts) (ctx : PageCtx)
      → ctxs req_id ≡ some ctx
      → ctx.time_end - ctx.time_start < length visits
      → follow visits req_id ctxs req_id ≡ none
  follow-ends [] req_id ctxs ctx e l = absurd (omega arith)
  follow-ends ((now, h) ∷ visits) req_id ctxs ctx e l =
      let left = (handle_history_next R now req_id h ctxs).1 in
      elim (Option-cases (left req_id)) [
        | inl k ↦ follow-none visits req_id left k
        | inr (later, k) ↦
            let goes_on = (next-GoesOn now req_id h ctxs ctx e).2 later k in
            follow-ends visits req_id left later k (omega (arith, goes_on.1, goes_on.3, goes_on.4))
      ]
