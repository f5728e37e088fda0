-- ===== src/Thread/Joining.antt =====
-- How a thread ends, in every interleaving of its owner's calls with its run().
use bms_bridge.Base.{ℕ, ◌+◌, ◌≡◌, ◌⊎◌, refl, ap, Bool, true, false, Bool-cases, inl, inr}
use bms_bridge.Thread.{
  Worker, not_made, running, ended, joined, Thread, new_thread, joinable, start, call_off, stop,
  run_ends, join, destroy,
}

-- Where the owner and the worker can lead; the owner makes no call while it waits in join().
pub data Reachable : Thread → Type 0 where
  made : Reachable new_thread
  starts :
      (spawns : Bool) {t : Thread} → t.in_join ≡ false → Reachable t → Reachable (start spawns t)
  stops : {t : Thread} → t.in_join ≡ false → Reachable t → Reachable (stop t)
  destroys : {t : Thread} → t.in_join ≡ false → Reachable t → Reachable (destroy t)
  ends : {t : Thread} → t.worker ≡ running → Reachable t → Reachable (run_ends t)
  joins : {t : Thread} → t.in_join ≡ true → t.worker ≡ ended → Reachable t → Reachable (join t)

abbrev one_if : Bool → ℕ
one_if true = 1
one_if false = 0

pub record IsOrderly (t : Thread) : Type 0 where
  pub once : t.on_stops ≡ one_if t.stopping
  pub spawned : (t.worker ≡ not_made) ⊎ (t.started ≡ true)
  pub waits : t.in_join ≡ true → (t.stopping ≡ true) × (joinable t.worker ≡ true)
  pub stopped : t.worker ≡ joined → t.stopping ≡ true

made-started : {w : Worker} {b : Bool} → (w ≡ not_made) ⊎ (b ≡ true) → joinable w ≡ true → b ≡ true
made-started (inl e) j = cc
made-started (inr e) j = e

start-IsOrderly :
    (spawns : Bool) (t : Thread) → t.in_join ≡ false → IsOrderly t → IsOrderly (start spawns t)
unfolding start
start-IsOrderly spawns t rest = go t.started spawns
  where
    go :
        (b c : Bool)
        → IsOrderly (record t { started = b })
        → IsOrderly (start c (record t { started = b }))
    go true c v = v
    go false true v = record {
      once = v.once;
      spawned = inr refl;
      waits = λ j. cc;
      stopped = λ j. cc;
    }
    go false false v = record {
      once = v.once;
      spawned = inr refl;
      waits = v.waits;
      stopped = v.stopped;
    }

stop-IsOrderly : (t : Thread) → IsOrderly t → IsOrderly (stop t)
unfolding stop call_off
stop-IsOrderly t = go t.stopping
  where
    go :
        (b : Bool)
        → IsOrderly (record t { stopping = b })
        → IsOrderly (stop (record t { stopping = b }))
    go true v = record {
      once = v.once;
      spawned = v.spawned;
      waits = λ j. (refl, j);
      stopped = λ j. refl;
    }
    go false v = record {
      once = ap (λ k. k + 1) v.once;
      spawned = v.spawned;
      waits = λ j. (refl, j);
      stopped = λ j. refl;
    }

destroy-IsOrderly : (t : Thread) → IsOrderly t → IsOrderly (destroy t)
unfolding destroy
destroy-IsOrderly t v = elim (Bool-cases (joinable t.worker)) [
  | inl e ↦ rw e (stop-IsOrderly t v)
  | inr e ↦ rw e v
]

-- In every interleaving: on_stop() is called at most once, and exactly when stopping is set; a thread
-- is made only by start(); stop() waits only for a thread that is there, and with the flag set; and no
-- thread is joined before the flag is set.
pub reachable-IsOrderly : (t : Thread) → Reachable t → IsOrderly t
reachable-IsOrderly t made = record {
  once = refl;
  spawned = inl refl;
  waits = λ j. cc;
  stopped = λ j. cc;
}
reachable-IsOrderly t (starts spawns {t = s} rest r) =
    start-IsOrderly spawns s rest (reachable-IsOrderly s r)
reachable-IsOrderly t (stops {t = s} rest r) = stop-IsOrderly s (reachable-IsOrderly s r)
reachable-IsOrderly t (destroys {t = s} rest r) = destroy-IsOrderly s (reachable-IsOrderly s r)
reachable-IsOrderly _ (ends {t = s} e r) =
    let v = reachable-IsOrderly s r in
    record {
      once = v.once;
      spawned = inr (made-started v.spawned (ap joinable e));
      waits = λ j. ((v.waits j).0, refl);
      stopped = λ j. cc;
    }
reachable-IsOrderly t (joins {t = s} j e r) =
    let v = reachable-IsOrderly s r in
    record {
      once = v.once;
      spawned = inr (made-started v.spawned (ap joinable e));
      waits = λ k. cc;
      stopped = λ k. (v.waits j).0;
    }
