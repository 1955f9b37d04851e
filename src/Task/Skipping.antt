-- ===== src/Task/Skipping.antt =====
-- When the worker skips an item.
use ingress_nginx.Prelude.{
  ℕ, ◌+◌, ◌≤◌, ◌<◌, Bool, true, false, some, List, [], ◌∷◌, ◌≡◌, ◌⊎◌, inl, inr, refl, arith, ltb,
  if◌then◌else◌, Bool-cases, Some,
}
use ingress_nginx.Task.{Queue, Element, day, enqueue_task, work, quit}
use ingress_nginx.Task.Steps.{
  State, start, Step, tick, request, take, finish, shut_down, return, Reach, here, next, added,
  is_synced, record_sync,
}

last_sync-quit : (Key : Type 0) (q : Queue) → (quit {Key = Key} q).0.last_sync ≡ q.last_sync
unfolding quit
last_sync-quit Key q = ground arith

later_than :
    (n last : ℕ) (log : List ℕ) → n < last → Some (λ ts. ts ≡ last) log → Some (λ ts. n < ts) log
later_than n last [] h s = s
later_than n last (ts ∷ log) h (inl e) = inl (omega arith)
later_than n last (ts ∷ log) h (inr s) = inr (later_than n last log h s)

at_least :
    (n last : ℕ) (log : List ℕ) → n ≤ last → Some (λ ts. ts ≡ last) log → Some (λ ts. n ≤ ts) log
at_least n last [] h s = s
at_least n last (ts ∷ log) h (inl e) = inl (omega arith)
at_least n last (ts ∷ log) h (inr s) = inr (at_least n last log h s)

pub skipped_later :
    (since time last : ℕ) (log : List ℕ)
    → since ≤ time
    → time < last
    → (last ≡ 0) ⊎ Some (λ ts. ts ≡ last) log
    → Some (λ ts. since ≤ ts) log
skipped_later since time last log l h (inl z) = absurd (omega arith)
skipped_later since time last log l h (inr s) = at_least since last log (omega arith) s

module _ {Key : Type 0} where
  -- The last sync is one of those that succeeded, once there is one, and is not ahead of the time;
  -- neither is the time that the worker has noted.
  pub record IsConsistent (s : State Key) : Type 0 where
    pub logged : (s.queue.last_sync ≡ 0) ⊎ Some (λ ts. ts ≡ s.queue.last_sync) s.synced
    pub past : s.queue.last_sync ≤ s.now
    pub began : (item : Element Key) (ts : ℕ) → s.taken ≡ some (item, ts) → ts ≤ s.now

  -- One round of the worker on the last sync and the log.
  round_last_sync :
      (q : Queue) (item : Element Key) (now later : ℕ) (ok : Bool) (log : List ℕ)
      → (q.last_sync ≡ 0) ⊎ Some (λ ts. ts ≡ q.last_sync) log
      → q.last_sync ≤ later
      → now ≤ later
      → (((work q item now ok later).0.last_sync ≡ 0)
          ⊎ Some
              (λ ts. ts ≡ (work q item now ok later).0.last_sync)
              (record_sync (if is_synced (work q item now ok later).1 then ok else false) now log))
        × ((work q item now ok later).0.last_sync ≤ later)
  unfolding work
  round_last_sync q item now later true log h p b =
      elim (Bool-cases (ltb item.timestamp q.last_sync)) [
        | inl old ↦ rw old (h, p)
        | inr new ↦ rw new (inr (inl refl), b)
      ]
  round_last_sync q item now later false log h p b =
      elim (Bool-cases (ltb item.timestamp q.last_sync)) [
        | inl old ↦ rw old (h, p)
        | inr new ↦ rw new (h, p)
      ]

  pub Step-IsConsistent : {s t : State Key} → Step s t → IsConsistent s → IsConsistent t
  Step-IsConsistent (tick s n) c = record {
    logged = c.logged;
    past = omega (arith, c.past);
    began = λ item ts h. omega (arith, c.began item ts h);
  }
  Step-IsConsistent (request s k b) c = record { logged = c.logged; past = c.past; began = c.began }
  Step-IsConsistent (take s before after item e free o) c = record {
    logged = c.logged;
    past = c.past;
    began = λ other ts h. ground (arith, h);
  }
  Step-IsConsistent (finish s item ts ok h) c =
      let (l, p) =
        round_last_sync s.queue item ts s.now ok s.synced c.logged c.past (c.began item ts h) in
      record { logged = l; past = p; began = λ other time k. cc }
  Step-IsConsistent (shut_down s) c = record { logged = c.logged; past = c.past; began = c.began }
  Step-IsConsistent (return s d e f) c = record {
    logged = rw (last_sync-quit Key s.queue) c.logged;
    past = rw (last_sync-quit Key s.queue) c.past;
    began = c.began;
  }

  pub Reach-IsConsistent : {s t : State Key} → IsConsistent s → Reach s t → IsConsistent t
  Reach-IsConsistent c here = c
  Reach-IsConsistent c (next r st) = Step-IsConsistent st (Reach-IsConsistent c r)

  pub start-IsConsistent : (now : ℕ) → IsConsistent (start Key now)
  start-IsConsistent now = record { logged = inl refl; past = omega arith; began = λ item ts h. cc }

  -- In every state that the queue reaches, if the worker does not sync the item that it takes, a
  -- sync has succeeded that began after the item's time.
  pub skipped_after_sync :
      (now later : ℕ) (ok : Bool) (s : State Key) (item : Element Key)
      → Reach (start Key now) s
      → is_synced (work s.queue item s.now ok later).1 ≡ false
      → Some (λ ts. item.timestamp < ts) s.synced
  unfolding work
  skipped_after_sync now later ok s item r h =
      let c = Reach-IsConsistent (start-IsConsistent now) r in
      elim (c.logged) [
        | inl zero_sync ↦ absurd (ground arith)
        | inr found ↦ later_than item.timestamp s.queue.last_sync s.synced (ground arith) found
      ]

  -- A task that is not skippable is synced in every state up to a day after it was enqueued,
  -- whatever was synced before.
  pub task_is_synced :
      (now later t : ℕ) (ok : Bool) (key : Key) (s : State Key)
      → Reach (start Key now) s
      → s.now ≤ t + day
      → (item : Element Key) × (added (enqueue_task false (some key) t) ≡ item ∷ [])
        × (item.key ≡ key)
        × (is_synced (work s.queue item s.now ok later).1 ≡ true)
  unfolding work enqueue_task
  task_is_synced now later t ok key s r h =
      let c = Reach-IsConsistent (start-IsConsistent now) r in
      (
        record { key = key; timestamp = t + day; is_skippable = false },
        refl,
        refl,
        ground (arith, c.past),
      )
