-- ===== src/Task.antt =====
-- internal/task/queue.go: the queue of objects to sync and its worker. The rate limited work queue
-- (k8s.io/client-go) is outside the repository: the model gives the calls that it receives. A time
-- is a number of nanoseconds since 1970.
pub mod Steps
pub mod Skipping
pub mod Served
use ingress_nginx.Prelude.{
  ℕ, ◌+◌, Bool, true, false, Option, none, some, List, [], ◌∷◌, ltb, if◌then◌else◌,
}

-- `Queue`, without the functions that it is given: `closed` says whether `workerDone` is closed.
pub record Queue : Type 0 where
  pub closed : Bool
  pub last_sync : ℕ

module _ (Key : Type 0) where
  pub record Element : Type 0 where
    pub key : Key
    pub timestamp : ℕ
    pub is_skippable : Bool

  -- The calls of the work queue, of `sync` and of `close`.
  pub data Call : Type 0 where
    add : Element → Call
    sync : Element → Call
    forget : Element → Call
    done : Element → Call
    add_rate_limited : Element → Call
    close : Call

-- 24 * time.Hour
abbrev pub day : ℕ
day = 86400000000000

module _ {Key : Type 0} where
  -- `enqueue`, where `fn` has given the key, or an error, and `now` is the time.
  unfoldable pub enqueue : Bool → Option Key → Bool → ℕ → List (Call Key)
  enqueue true key skippable now = []
  enqueue false none skippable now = []
  enqueue false (some key) skippable now =
      add (record {
        key = key;
        timestamp = if skippable then now else now + day;
        is_skippable = false;
      })
      ∷ []

  unfoldable pub enqueue_task : Bool → Option Key → ℕ → List (Call Key)
  unfolding enqueue
  enqueue_task shutting_down key now = enqueue shutting_down key false now

  unfoldable pub enqueue_skippable_task : Bool → Option Key → ℕ → List (Call Key)
  unfolding enqueue
  enqueue_skippable_task shutting_down key now = enqueue shutting_down key true now

  -- One round of `worker` with an item: the time `ts` before the call of `sync`, whether it
  -- succeeds, and the time after it.
  unfoldable pub work : Queue → Element Key → ℕ → Bool → ℕ → Queue × List (Call Key)
  work q item ts ok later =
      if ltb item.timestamp q.last_sync
      then (q, forget item ∷ done item ∷ [])
      else if ok
      then (record q { last_sync = ts }, sync item ∷ forget item ∷ done item ∷ [])
      else (
        q,
        sync item
            ∷ add_rate_limited (record { key = item.key; timestamp = later; is_skippable = false })
            ∷ done item
            ∷ [],
      )

  -- The round in which `Get` says that the work queue has shut down; the worker returns.
  unfoldable pub quit : Queue → Queue × List (Call Key)
  quit q = if q.closed then (q, []) else (record q { closed = true }, close ∷ [])
