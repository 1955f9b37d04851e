-- ===== src/Tests/Queue.antt =====
-- Runs of the queue.
use ingress_nginx.Prelude.{
  ℕ, ◌+◌, ◌<◌, [], ◌∷◌, ◌++◌, none, some, true, false, ◌≡◌, refl, String, Some, arith,
}
use ingress_nginx.Task.{Element, enqueue, enqueue_task, enqueue_skippable_task, work, quit}
use ingress_nginx.Task.Steps.{
  State, start, tick, request, take, finish, Reach, here, next, added, is_synced,
}
use ingress_nginx.Task.Skipping.{skipped_after_sync, task_is_synced}
use ingress_nginx.Task.Served.{IsServed, request-IsServed}

abbrev item : ℕ → Element String
item t = record { key = "ns/a"; timestamp = t; is_skippable = false }

abbrev begun : State String
begun = start String 5

abbrev two_requests : State String
two_requests = record begun { waiting = item 5 ∷ item 5 ∷ [] }

abbrev passed : State String
passed = record two_requests { now = 5 + 2 }

-- One of two skippable items is taken at 7, and a third request comes at 8, during its sync. After
-- the sync the item of 5 is skipped, and the one of 8 is not.
abbrev taken_one : State String
taken_one = record passed { waiting = item 5 ∷ []; taken = some (item 5, 7) }

abbrev during : State String
during = record taken_one { now = 7 + 1; waiting = item 5 ∷ item 8 ∷ [] }

abbrev one_synced : State String
one_synced = record during {
  queue = record { closed = false; last_sync = 7 };
  taken = none;
  synced = 7 ∷ [];
}

requested : Reach begun two_requests
unfolding enqueue
requested = next (next here (request begun (some "ns/a") true)) (request _ (some "ns/a") true)

reach_during : Reach begun during
unfolding enqueue
reach_during =
    next
      (next
        (next (next requested (tick two_requests 2))
          (take passed [] (item 5 ∷ []) (item 5) refl refl refl))
        (tick taken_one 1))
      (request (record taken_one { now = 7 + 1 }) (some "ns/a") true)

reached : Reach begun one_synced
unfolding work
reached = next reach_during (finish during (item 5) 7 true refl)

not_skipped :
    (is_synced (work one_synced.queue (item 5) 9 true 9).1 ≡ false)
    × (is_synced (work one_synced.queue (item 8) 9 true 9).1 ≡ true)
unfolding work
not_skipped = (refl, refl)

skipped_after_sync_example : Some (λ ts. 5 < ts) one_synced.synced
skipped_after_sync_example =
    skipped_after_sync 5 9 true one_synced (item 5) reached (unfold work in refl)

task_is_synced_example :
    (e : Element String) × (added (enqueue_task false (some "ns/b") 3) ≡ e ∷ [])
    × (e.key ≡ "ns/b")
    × (is_synced (work one_synced.queue e one_synced.now true 9).1 ≡ true)
task_is_synced_example = task_is_synced 5 9 3 true "ns/b" one_synced reached (omega arith)

-- The request of 8, which comes during the sync.
request-IsServed_example : IsServed "ns/a" 8 one_synced
request-IsServed_example =
    request-IsServed 5 "ns/a" true before_it one_synced reach_before_it refl served refl
  where
    before_it : State String
    before_it = record taken_one { now = 7 + 1 }

    reach_before_it : Reach begun before_it
    reach_before_it =
        next
          (next (next requested (tick two_requests 2))
            (take passed [] (item 5 ∷ []) (item 5) refl refl refl))
          (tick taken_one 1)

    served :
        Reach
          (record before_it {
            waiting =
                before_it.waiting
                ++ added (enqueue before_it.shutting_down (some "ns/a") true before_it.now);
          })
          one_synced
    served = unfold enqueue work in next here (finish during (item 5) 7 true refl)

-- A queue that shuts down takes nothing; a failed sync is tried again.
queue_tests :
    (enqueue_skippable_task {Key = String} true (some "ns/a") 4 ≡ [])
    × (added (work (record { closed = false; last_sync = 3 }) (item 4) 5 false 6).1 ≡ item 6 ∷ [])
    × ((quit {Key = String} (record { closed = false; last_sync = 3 })).0.closed ≡ true)
unfolding enqueue_skippable_task work quit
queue_tests = (refl, refl, refl)
