-- ===== src/Task/Steps.antt =====
-- The queue among the goroutines that use it, as a step relation: time passes, objects are
-- enqueued, and the worker takes some item that waits and ends with it in a later step, so that
-- other goroutines act while a sync runs. The work queue drops what is added to it once it is
-- shutting down, and `Get` says that it is shut down when no item waits any more.
use ingress_nginx.Prelude.{
  ℕ, ◌+◌, Bool, true, false, Option, none, some, List, [], ◌∷◌, ◌++◌, ◌≡◌, if◌then◌else◌,
}
use ingress_nginx.Task.{Queue, Element, Call, add, add_rate_limited, sync, enqueue, work, quit}

module _ (Key : Type 0) where
  -- The queue, the time, the items that wait, the item that the worker has taken with the time `ts`
  -- that it noted, and the start of each sync that succeeded.
  pub record State : Type 0 where
    pub queue : Queue
    pub shutting_down : Bool
    pub now : ℕ
    pub waiting : List (Element Key)
    pub taken : Option (Element Key × ℕ)
    pub synced : List ℕ

  abbrev pub start : ℕ → State
  start now = record {
    queue = record { closed = false; last_sync = 0 };
    shutting_down = false;
    now = now;
    waiting = [];
    taken = none;
    synced = [];
  }

abbrev pub record_sync : Bool → ℕ → List ℕ → List ℕ
record_sync true ts log = ts ∷ log
record_sync false ts log = log

module _ {Key : Type 0} where
  -- The items that the calls put into the work queue.
  abbrev pub added : List (Call Key) → List (Element Key)
  added [] = []
  added (add e ∷ cs) = e ∷ added cs
  added (add_rate_limited e ∷ cs) = e ∷ added cs
  added (_ ∷ cs) = added cs

  abbrev pub is_synced : List (Call Key) → Bool
  is_synced [] = false
  is_synced (sync e ∷ cs) = true
  is_synced (_ ∷ cs) = is_synced cs

  pub data Step : State Key → State Key → Type 0 where
    tick : (s : State Key) (n : ℕ) → Step s (record s { now = s.now + n })
    request :
        (s : State Key) (key : Option Key) (skippable : Bool)
        → Step s (record s {
          waiting = s.waiting ++ added (enqueue s.shutting_down key skippable s.now);
        })
    -- `Get` gives the worker, which has ended with its last item, an item that waits; `ts` is the time.
    take :
        (s : State Key) (before after : List (Element Key)) (item : Element Key)
        → s.waiting ≡ before ++ (item ∷ after)
        → s.taken ≡ none
        → s.queue.closed ≡ false
        → Step s (record s { waiting = before ++ after; taken = some (item, s.now) })
    -- The worker ends with its item, which it skips, or whose sync succeeds if `ok`.
    finish :
        (s : State Key) (item : Element Key) (ts : ℕ) (ok : Bool)
        → s.taken ≡ some (item, ts)
        → Step s (record s {
          queue = (work s.queue item ts ok s.now).0;
          waiting =
              s.waiting
              ++ (if s.shutting_down then [] else added (work s.queue item ts ok s.now).1);
          taken = none;
          synced =
              record_sync
                (if is_synced (work s.queue item ts ok s.now).1 then ok else false)
                ts
                s.synced;
        })
    shut_down : (s : State Key) → Step s (record s { shutting_down = true })
    return :
        (s : State Key)
        → s.shutting_down ≡ true
        → s.waiting ≡ []
        → s.taken ≡ none
        → Step s (record s { queue = (quit {Key = Key} s.queue).0 })

  pub data Reach (s : State Key) : State Key → Type 0 where
    here : Reach s s
    next : {t u : State Key} → Reach s t → Step t u → Reach s u
