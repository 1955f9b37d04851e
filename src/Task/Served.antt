-- ===== src/Task/Served.antt =====
-- No request is lost.
use ingress_nginx.Prelude.{
  some-injective, ℕ, ◌≤◌, Bool, true, false, some, List, ◌∷◌, ◌++◌, ◌≡◌, ◌⊎◌, inl, inr, refl, arith,
  ltb, if◌then◌else◌, Bool-cases, Some, Some-append, Some-append_left, Some-append_right, subst,
  sym, ◌∙◌,
}
use ingress_nginx.Task.{Queue, Element, enqueue, work}
use ingress_nginx.Task.Steps.{
  State, start, Step, tick, request, take, finish, shut_down, return, Reach, here, next, added,
  is_synced, record_sync,
}
use ingress_nginx.Task.Skipping.{
  IsConsistent, Step-IsConsistent, skipped_later, Reach-IsConsistent, start-IsConsistent,
}

module _ {Key : Type 0} (key : Key) (since : ℕ) where
  abbrev pub IsFor : Element Key → Type 0
  IsFor e = (e.key ≡ key) × (since ≤ e.timestamp)

  -- An item for the key that is at least as late as the request waits, or the worker has taken it no
  -- earlier than that, or a sync has succeeded that began no earlier.
  pub data IsServed (s : State Key) : Type 0 where
    waits : Some IsFor s.waiting → IsServed s
    is_taken :
        (item : Element Key) (ts : ℕ)
        → s.taken ≡ some (item, ts)
        → IsFor item
        → since ≤ ts
        → IsServed s
    was_synced : Some (λ ts. since ≤ ts) s.synced → IsServed s

  kept_log :
      (b : Bool) (ts : ℕ) (log : List ℕ)
      → Some (λ ts. since ≤ ts) log
      → Some (λ ts. since ≤ ts) (record_sync b ts log)
  kept_log true ts log h = inr h
  kept_log false ts log h = h

  -- What becomes of the item that the worker takes.
  round_item :
      (q : Queue) (item : Element Key) (now later : ℕ) (ok : Bool) (log : List ℕ)
      → IsFor item
      → since ≤ now
      → now ≤ later
      → ((q.last_sync ≡ 0) ⊎ Some (λ ts. ts ≡ q.last_sync) log)
      → Some IsFor (added (work q item now ok later).1)
        ⊎ Some
            (λ ts. since ≤ ts)
            (record_sync (if is_synced (work q item now ok later).1 then ok else false) now log)
  unfolding work
  round_item q item now later ok log f n l c = elim (Bool-cases (ltb item.timestamp q.last_sync)) [
    | inl old ↦
        rw old (inr (skipped_later since item.timestamp q.last_sync log f.1 (ground arith) c))
    | inr new ↦ elim (Bool-cases ok) [
      | inl good ↦ rw (new, good) (inr (inl n))
      | inr bad ↦ rw (new, bad) (inl (inl (f.0, omega arith)))
    ]
  ]

  Step-IsServed :
      {s t : State Key}
      → Step s t
      → t.shutting_down ≡ false
      → IsConsistent s
      → since ≤ s.now
      → IsServed s
      → IsServed t
  Step-IsServed (tick s n) d c l (waits h) = waits h
  Step-IsServed (tick s n) d c l (is_taken item ts e f g) = is_taken item ts e f g
  Step-IsServed (tick s n) d c l (was_synced h) = was_synced h
  Step-IsServed (request s k b) d c l (waits h) = waits (Some-append_left IsFor s.waiting _ h)
  Step-IsServed (request s k b) d c l (is_taken item ts e f g) = is_taken item ts e f g
  Step-IsServed (request s k b) d c l (was_synced h) = was_synced h
  Step-IsServed (take s before after item e free o) d c l (was_synced h) = was_synced h
  Step-IsServed (take s before after item e free o) d c l (is_taken other ts h f g) = cc
  Step-IsServed (take s before after item e free o) d c l (waits h) =
      elim (Some-append IsFor before (item ∷ after) (subst (Some IsFor) e h)) [
        | inl front ↦ waits (Some-append_left IsFor before _ front)
        | inr (inr back) ↦ waits (Some-append_right IsFor before _ back)
        | inr (inl this) ↦ is_taken item s.now refl this l
      ]
  Step-IsServed (finish s item ts ok h) d c l (waits w) =
      waits (Some-append_left IsFor s.waiting _ w)
  Step-IsServed (finish s item ts ok h) d c l (was_synced w) = was_synced (kept_log _ ts s.synced w)
  Step-IsServed (finish s item ts ok h) d c l (is_taken other time e f g) =
      let same : (other, time) ≡ (item, ts) = some-injective (sym e ∙ h) in
      let mine = subst (λ (q : Element Key × ℕ). IsFor q.0 × (since ≤ q.1)) same (f, g) in
      elim (round_item s.queue item ts s.now ok s.synced mine.0 mine.1 (c.began item ts h)
        c.logged) [
          | inl again ↦ waits (Some-append_right IsFor s.waiting _ (rw d again))
          | inr success ↦ was_synced success
        ]
  Step-IsServed (shut_down s) d c l h = cc
  Step-IsServed (return s a b free) d c l (waits h) = waits h
  Step-IsServed (return s a b free) d c l (is_taken item ts e f g) = is_taken item ts e f g
  Step-IsServed (return s a b free) d c l (was_synced h) = was_synced h

module _ {Key : Type 0} where
  Step-now : {s t : State Key} → Step s t → s.now ≤ t.now
  Step-now (tick s n) = omega arith
  Step-now (request s k b) = omega arith
  Step-now (take s before after item e free o) = omega arith
  Step-now (finish s item ts ok e) = omega arith
  Step-now (shut_down s) = omega arith
  Step-now (return s d e f) = omega arith

  Step-open : {s t : State Key} → Step s t → t.shutting_down ≡ false → s.shutting_down ≡ false
  Step-open (tick s n) h = h
  Step-open (request s k b) h = h
  Step-open (take s before after item e free o) h = h
  Step-open (finish s item ts ok e) h = h
  Step-open (shut_down s) h = cc
  Step-open (return s d e f) h = h

  Reach-IsServed :
      (key : Key) (since : ℕ) {s t : State Key}
      → IsConsistent s
      → since ≤ s.now
      → IsServed key since s
      → Reach s t
      → t.shutting_down ≡ false
      → IsServed key since t × IsConsistent t × (since ≤ t.now)
  Reach-IsServed key since c l h here d = (h, c, l)
  Reach-IsServed key since c l h (next {t} r st) d =
      let (h', c', l') = Reach-IsServed key since c l h r (Step-open st d) in
      (Step-IsServed key since st d c' l' h', Step-IsConsistent st c', omega (arith, Step-now st))

  -- After a request for a key, in every later state in which the queue is not shutting down, also
  -- during a sync, an item for that key that is no older than the request waits or has been taken
  -- by the worker no earlier than it, or a sync has succeeded that began no earlier than it.
  pub request-IsServed :
      (begin : ℕ) (key : Key) (skippable : Bool) (s t : State Key)
      → Reach (start Key begin) s
      → s.shutting_down ≡ false
      → Reach
          (record s {
            waiting = s.waiting ++ added (enqueue s.shutting_down (some key) skippable s.now);
          })
          t
      → t.shutting_down ≡ false
      → IsServed key s.now t
  request-IsServed begin key skippable s t r o r' d =
      let c = Reach-IsConsistent (start-IsConsistent begin) r in
      (Reach-IsServed key s.now (record { logged = c.logged; past = c.past; began = c.began })
        (omega arith)
        (waits (Some-append_right (IsFor key s.now) s.waiting _ (fresh s.shutting_down o))) r' d).0
    where
      fresh :
          (b : Bool)
          → b ≡ false
          → Some (IsFor key s.now) (added (enqueue b (some key) skippable s.now))
      fresh true e = cc
      fresh false e = unfold enqueue in inl (refl, ground arith)
