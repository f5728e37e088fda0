-- ===== src/Http/Pages.antt =====
-- The pages of /history: handle_history, handle_history_next, handle_history_initial and on_sweep of
-- src/http_server.cpp.
--
-- A time is in milliseconds, since 1970 or of the steady clock; `now` is a reading. A number of a
-- request is what atoi or atoll makes of it, and 0 when that is negative. Contexts are a map from
-- request ids. Log lines are left out; Http.Json.Replies has the replies.
pub mod Backwards
use bms_bridge.Base.{
  ℕ, ◌+◌, ◌-◌, ◌*◌, ◌/◌, List, [], ◌∷◌, Option, none, some, Bool, true, false, ltb, leb, ◌&&◌,
  if◌then◌else◌, ◌>>=◌, Bytes, same_name,
}
use bms_bridge.History.{History}
use bms_bridge.History.Rows.{TelemetrySample}
use bms_bridge.History.Range.{Reader, range_by_id}

abbrev pub ctx_ttl_ms : ℕ
ctx_ttl_ms = 300 * 1000

pub record PageCtx : Type 0 where
  pub battery_id : ℕ
  pub time_start : ℕ
  pub time_end : ℕ
  pub count : ℕ
  pub expires_at : ℕ

abbrev pub Contexts : Type 0
Contexts = Bytes → Option PageCtx

abbrev pub no_contexts : Contexts
no_contexts id = none

unfoldable pub put : Bytes → PageCtx → Contexts → Contexts
put id ctx ctxs other = if same_name id other then some ctx else ctxs other

unfoldable pub erase : Bytes → Contexts → Contexts
erase id ctxs other = if same_name id other then none else ctxs other

pub data Reply : Type 0 where
  bad_request : Reply
  not_found : Reply
  page : Bytes → List TelemetrySample → Reply

unfoldable pub step_of : (time_start time_end count : ℕ) → ℕ
step_of time_start time_end count =
    let win_ms = time_end - time_start in if ltb 0 win_ms && ltb 0 count then win_ms / count else 0

-- data.back().ts
unfoldable pub oldest : List TelemetrySample → Option ℕ
oldest [] = none
oldest (s ∷ ss) = elim (oldest ss) [ none ↦ some s.ts | some t ↦ some t ]

abbrev pub renewed : Bytes → Option PageCtx → Contexts → Contexts
renewed id none ctxs = erase id ctxs
renewed id (some ctx) ctxs = put id ctx ctxs

abbrev pub put_if : Bytes → Option PageCtx → Contexts → Contexts
put_if id none ctxs = ctxs
put_if id (some ctx) ctxs = put id ctx ctxs

-- The keys of the query that /history reads.
pub record Query : Type 0 where
  pub next : Bool
  pub req_id : Option Bytes
  pub battery : ℕ
  pub time_start : Option ℕ
  pub time_end : Option ℕ
  pub count : ℕ

abbrev pub or_else : Option ℕ → ℕ → ℕ
or_else none d = d
or_else (some t) d = t

-- What the probe for an older sample decides.
abbrev pub renew : (now : ℕ) → PageCtx → ℕ → List TelemetrySample → Option PageCtx
renew now ctx back [] = none
renew now ctx back (s ∷ ss) = some (record ctx { time_end = back; expires_at = now + ctx_ttl_ms })

module _ {D : Type 0} (R : Reader D) where
  -- The page that a context asks for.
  unfoldable pub page_of : PageCtx → History D → List TelemetrySample
  unfolding range_by_id step_of
  page_of ctx h =
      range_by_id R ctx.battery_id ctx.time_start ctx.time_end ctx.count
        (step_of ctx.time_start ctx.time_end ctx.count) h

  -- The context behind a page, unless nothing older is left.
  unfoldable pub advance : (now : ℕ) → PageCtx → List TelemetrySample → History D → Option PageCtx
  unfolding range_by_id oldest
  advance now ctx shown h = oldest shown >>= λ back.
      renew now ctx back (range_by_id R ctx.battery_id ctx.time_start back 1 0 h)

  unfoldable pub handle_history_next : (now : ℕ) → Bytes → History D → Contexts → Reply × Contexts
  unfolding page_of advance put erase
  handle_history_next now req_id h ctxs = elim (ctxs req_id) [
    | none ↦ (not_found, ctxs)
    | some ctx ↦
        let shown = page_of ctx h in
        (page req_id shown, renewed req_id (advance now ctx shown h) ctxs)
  ]

  -- `wall` is the system clock, and `uuid` what gen_uuid4() makes.
  unfoldable pub initial_ctx : (wall : ℕ) → Query → PageCtx
  initial_ctx wall q = record {
    battery_id = q.battery;
    time_start = or_else q.time_start (wall - 24 * 3600000);
    time_end = or_else q.time_end wall;
    count = if ltb 0 q.count then q.count else 100;
    expires_at = 0;
  }

  unfoldable pub handle_history_initial :
      (wall now : ℕ) → Bytes → Query → History D → Contexts → Reply × Contexts
  unfolding initial_ctx page_of advance put
  handle_history_initial wall now uuid q h ctxs =
      let ctx = initial_ctx wall q in
      let shown = page_of ctx h in (page uuid shown, put_if uuid (advance now ctx shown h) ctxs)

  unfoldable pub handle_history :
      (wall now : ℕ) → Bytes → Query → History D → Contexts → Reply × Contexts
  unfolding handle_history_next handle_history_initial
  handle_history wall now uuid q h ctxs =
      if q.next
      then elim q.req_id [
        | none ↦ (bad_request, ctxs)
        | some [] ↦ (bad_request, ctxs)
        | some (c ∷ cs) ↦ handle_history_next now (c ∷ cs) h ctxs
      ]
      else handle_history_initial wall now uuid q h ctxs

-- on_sweep(): the contexts whose time has come are erased.
unfoldable pub sweep : (now : ℕ) → Contexts → Contexts
sweep now ctxs id = elim (ctxs id) [
  | none ↦ none
  | some ctx ↦ if leb ctx.expires_at now then none else some ctx
]
