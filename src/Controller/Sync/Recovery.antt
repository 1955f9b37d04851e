-- ===== src/Controller/Sync/Recovery.antt =====
-- A sync keeps NGINX and the running configuration together, and the next one repairs what a failure left.
use ingress_nginx.Prelude.{
  some-injective, Bool, true, false, none, some, String, ◌≡◌, ◌⊎◌, inl, inr, refl, sym, ◌∙◌, arith,
  Bool-cases, Option-cases, subst, ap, if-cases,
}
use ingress_nginx.Controller.Dynamic.{is_dynamic_configuration_enough}
use ingress_nginx.Equality.Configuration.{equal}
use ingress_nginx.Types.Configuration.{Configuration}
use ingress_nginx.Types.Heap.{Heap}
use ingress_nginx.Controller.Sync.{
  DeepEqual, Nginx, State, Reply, accepted, refused, lost, succeeds, left_with, Answers,
  streams_equal, streams_of, configure_dynamically, Outcome, shutting_down, unchanged, done, is_nil,
  reconfigure, stamped, apply, sync_ingress,
}
use ingress_nginx.Controller.Sync.Parts.{configure_part-accepted}
use ingress_nginx.Controller.Sync.Between.{
  Reaches, same, next, IsConsistent, IsBetween, IsSynced, reconfigure-IsSynced,
  configure_dynamically-file,
}

-- No failure.
abbrev pub all_accepted : Answers
all_accepted = record {
  is_shutting_down = false;
  on_update = accepted;
  backends = accepted;
  streams = accepted;
  servers = accepted;
}

left_with-loaded {ℓ} : {A : Type ℓ} (r : Reply) (x y : A) → succeeds r ≡ true → left_with r x y ≡ y
left_with-loaded accepted x y ok = refl
left_with-loaded refused x y ok = cc
left_with-loaded lost x y ok = cc

module _ (h : Heap) (D : DeepEqual) (hash : Configuration → String) where
  abbrev Needs : Configuration → Configuration → Type 0
  Needs running pcfg = is_dynamic_configuration_enough h running pcfg ≡ some false

  abbrev Between : Configuration → Configuration → Nginx → Nginx → Type 0
  Between running pcfg = IsBetween h D (Needs running pcfg) (stamped hash pcfg) running pcfg

  abbrev Synced : State → Configuration → Outcome × State → Type 0
  Synced s pcfg = IsSynced h D (Needs s.running_config pcfg) (stamped hash pcfg) s pcfg

  -- The checksum is not among the parts.
  IsSynced-of_stamped :
      (s : State) (pcfg : Configuration) (r : Outcome × State)
      → IsSynced h D (Needs s.running_config pcfg) (stamped hash pcfg) s (stamped hash pcfg) r
      → Synced s pcfg r
  IsSynced-of_stamped s pcfg r w = record {
    between = record {
      file = w.between.file;
      backends = w.between.backends;
      streams = w.between.streams;
      servers = w.between.servers;
    };
    success = w.success;
    failure = w.failure;
  }

  with_file :
      (running pcfg : Configuration) (old n : Nginx) (file : Configuration)
      → ((file ≡ old.file) ⊎ (Needs running pcfg × (file ≡ stamped hash pcfg)))
      → Between running pcfg old n
      → IsBetween h D
          (Needs running pcfg)
          (stamped hash pcfg)
          running
          (stamped hash pcfg)
          old
          (record n { file = file })
  with_file running pcfg old n file f w = record {
    file = f;
    backends = w.backends;
    streams = w.streams;
    servers = w.servers;
  }

  left_with-file :
      (running pcfg : Configuration) (old n : Nginx) (r : Reply)
      → Needs running pcfg
      → ((n.file ≡ old.file) ⊎ (Needs running pcfg × (n.file ≡ stamped hash pcfg)))
      → (left_with r n.file (stamped hash pcfg) ≡ old.file)
        ⊎ (Needs running pcfg × (left_with r n.file (stamped hash pcfg) ≡ stamped hash pcfg))
  left_with-file running pcfg old n accepted e w = inr (e, refl)
  left_with-file running pcfg old n refused e w = w
  left_with-file running pcfg old n lost e w = inr (e, refl)

  apply-Synced :
      (enough : Bool) (s : State) (pcfg : Configuration) (a : Answers) (n : Nginx)
      → is_dynamic_configuration_enough h s.running_config pcfg ≡ some enough
      → IsConsistent h D s
      → Between s.running_config pcfg s.nginx n
      → Synced s pcfg (apply D hash enough pcfg a (record s { nginx = n }))
  unfolding apply
  apply-Synced true s pcfg a n e c w =
      reconfigure-IsSynced h D (Needs s.running_config pcfg) (stamped hash pcfg) s pcfg a n c.parts
        w
        (subst (λ f. Reaches h f pcfg)
          (sym (configure_dynamically-file h D s.running_config pcfg a n))
          (elim w.file [
            | inl kept ↦ subst (λ f. Reaches h f pcfg) (sym kept) (next c.loaded e)
            | inr (needs, there) ↦ cc
          ]))
  apply-Synced false s pcfg a n e c w =
      let file = left_with a.on_update n.file (stamped hash pcfg) in
      let kept = left_with-file s.running_config pcfg s.nginx n a.on_update e w.file in
      let there = with_file s.running_config pcfg s.nginx n file kept w in
      if-cases (Synced s pcfg) (succeeds a.on_update) _ _
        (λ ok. IsSynced-of_stamped s pcfg _ (
          reconfigure-IsSynced h D (Needs s.running_config pcfg) (stamped hash pcfg) s
            (stamped hash pcfg) a (record n { file = file }) c.parts there
            (subst (λ f. Reaches h f (stamped hash pcfg))
              (sym (
                configure_dynamically-file h D s.running_config (stamped hash pcfg) a
                  (record n { file = file })
                ∙ left_with-loaded a.on_update n.file (stamped hash pcfg) ok))
              same)))
        (λ failed. record {
          between = record {
            file = kept;
            backends = w.backends;
            streams = w.streams;
            servers = w.servers;
          };
          success = λ nil. cc;
          failure = λ nil. refl;
        })

  configure_dynamically-accepted :
      (running pcfg : Configuration) (n : Nginx)
      → (configure_dynamically D running pcfg all_accepted n).0 ≡ true
  unfolding configure_dynamically
  configure_dynamically-accepted running pcfg n = ground (
    arith,
    configure_part-accepted D.backends running.backends pcfg.backends n.backends,
    configure_part-accepted (streams_equal D) (streams_of running) (streams_of pcfg) n.streams,
    configure_part-accepted D.servers running.servers pcfg.servers n.servers,
  )

  reconfigure-done :
      (pcfg : Configuration) (s : State) → (reconfigure D pcfg all_accepted s).0 ≡ done
  unfolding reconfigure
  reconfigure-done pcfg s = rw (configure_dynamically-accepted s.running_config pcfg s.nginx) refl

  apply-done :
      (enough : Bool) (pcfg : Configuration) (s : State)
      → (apply D hash enough pcfg all_accepted s).0 ≡ done
  unfolding apply
  apply-done true pcfg s = reconfigure-done pcfg s
  apply-done false pcfg s = reconfigure-done (stamped hash pcfg) _

  -- A sync that comes to no change, or to the rest of the function.
  Comes : Configuration → Answers → State → Outcome × State → Type 0
  Comes pcfg a s r =
      ((is_nil r.0 ≡ true) × (r.1 ≡ s))
      ⊎ ((equal h s.running_config pcfg ≡ false)
          × ((enough : Bool) × ((is_dynamic_configuration_enough h s.running_config pcfg
                  ≡ some enough)
                × (apply D hash enough pcfg a s ≡ r))))

  sync_ingress-down :
      (pcfg : Configuration) (a : Answers) (s : State)
      → a.is_shutting_down ≡ true
      → sync_ingress h D hash pcfg a s ≡ some (shutting_down, s)
  unfolding sync_ingress
  sync_ingress-down pcfg a s down = rw down refl

  sync_ingress-unchanged :
      (pcfg : Configuration) (a : Answers) (s : State)
      → a.is_shutting_down ≡ false
      → equal h s.running_config pcfg ≡ true
      → sync_ingress h D hash pcfg a s ≡ some (unchanged, s)
  unfolding sync_ingress
  sync_ingress-unchanged pcfg a s up agree = rw up (rw agree refl)

  sync_ingress-panics :
      (pcfg : Configuration) (a : Answers) (s : State)
      → a.is_shutting_down ≡ false
      → equal h s.running_config pcfg ≡ false
      → is_dynamic_configuration_enough h s.running_config pcfg ≡ none
      → sync_ingress h D hash pcfg a s ≡ none
  unfolding sync_ingress
  sync_ingress-panics pcfg a s up differ e = rw up (rw differ (rw e refl))

  sync_ingress-applies :
      (pcfg : Configuration) (a : Answers) (s : State) (enough : Bool)
      → a.is_shutting_down ≡ false
      → equal h s.running_config pcfg ≡ false
      → is_dynamic_configuration_enough h s.running_config pcfg ≡ some enough
      → sync_ingress h D hash pcfg a s ≡ some (apply D hash enough pcfg a s)
  unfolding sync_ingress
  sync_ingress-applies pcfg a s enough up differ e =
      let runs = some (apply D hash enough pcfg a s) in
      if-cases (λ q. q ≡ runs) a.is_shutting_down _ _ (λ down. cc)
        (λ _.
          if-cases (λ q. q ≡ runs) (equal h s.running_config pcfg) _ _ (λ agree. cc)
            (λ _. rw e refl))

  sync_ingress-Comes :
      (pcfg : Configuration) (a : Answers) (s : State) (r : Outcome × State)
      → sync_ingress h D hash pcfg a s ≡ some r
      → Comes pcfg a s r
  unfolding Comes
  sync_ingress-Comes pcfg a s r run = elim (Bool-cases a.is_shutting_down) [
    | inl down ↦
        let e = some-injective (sym run ∙ sync_ingress-down pcfg a s down) in
        inl (ap (λ q. is_nil q.0) e, ap (λ q. q.1) e)
    | inr up ↦ elim (Bool-cases (equal h s.running_config pcfg)) [
      | inl agree ↦
          let e = some-injective (sym run ∙ sync_ingress-unchanged pcfg a s up agree) in
          inl (ap (λ q. is_nil q.0) e, ap (λ q. q.1) e)
      | inr differ ↦ elim (Option-cases (is_dynamic_configuration_enough h s.running_config pcfg)) [
        | inl panics ↦ let e = sym run ∙ sync_ingress-panics pcfg a s up differ panics in cc
        | inr (enough, e) ↦ inr (
          differ,
          (
            enough,
            (e, some-injective (sym (sync_ingress-applies pcfg a s enough up differ e) ∙ run)),
          ),
        )
      ]
    ]
  ]

  unsent : (s : State) (pcfg : Configuration) → Between s.running_config pcfg s.nginx s.nginx
  unsent s pcfg = record {
    file = inl refl;
    backends = inl refl;
    streams = inl refl;
    servers = inl refl;
  }

  -- If NGINX has the running configuration before a sync, and the sync returns nil, then NGINX has the
  -- running configuration afterwards: it holds the backends, stream services and servers, and what it loaded
  -- differs from the running configuration only by changes of which IsDynamicConfigurationEnough says
  -- that they need no reload.
  pub sync_ingress-IsConsistent :
      (pcfg : Configuration) (a : Answers) (s : State) (r : Outcome × State)
      → IsConsistent h D s
      → sync_ingress h D hash pcfg a s ≡ some r
      → is_nil r.0 ≡ true
      → IsConsistent h D r.1
  unfolding Comes
  sync_ingress-IsConsistent pcfg a s r c run nil = elim (sync_ingress-Comes pcfg a s r run) [
    | inl (_, there) ↦ subst (IsConsistent h D) (sym there) c
    | inr (differ, (enough, (e, there))) ↦
        (subst (Synced s pcfg) there
            (apply-Synced enough s pcfg a s.nginx e c (unsent s pcfg))).success
          nil
  ]

  -- A state of a failed sync, to which the sync without a failure is applied.
  recovers_from :
      (pcfg : Configuration) (s : State) (enough : Bool) (n : Nginx)
      → IsConsistent h D s
      → equal h s.running_config pcfg ≡ false
      → is_dynamic_configuration_enough h s.running_config pcfg ≡ some enough
      → Between s.running_config pcfg s.nginx n
      → (t : State) × ((sync_ingress h D hash pcfg all_accepted (record s { nginx = n })
            ≡ some (done, t))
          × IsConsistent h D t)
  recovers_from pcfg s enough n c differ e w =
      let old = record s { nginx = n } in
      let r = apply D hash enough pcfg all_accepted old in
      let is_done : r.0 ≡ done = apply-done enough pcfg old in
      (
        r.1,
        (
          sync_ingress-applies pcfg all_accepted old enough refl differ e
              ∙ ap (λ o. some (o, r.1)) is_done,
          (apply-Synced enough s pcfg all_accepted n e c w).success (ap is_nil is_done),
        ),
      )

  -- If NGINX has the running configuration before a sync, and the sync returns an error after any of
  -- its calls, applied or not, then a sync of the same configuration with no failure returns nil
  -- after a reconfiguration, and NGINX has the running configuration then.
  pub sync_recovers :
      (pcfg : Configuration) (a : Answers) (s : State) (r : Outcome × State)
      → IsConsistent h D s
      → sync_ingress h D hash pcfg a s ≡ some r
      → is_nil r.0 ≡ false
      → (t : State) × ((sync_ingress h D hash pcfg all_accepted r.1 ≡ some (done, t))
          × IsConsistent h D t)
  unfolding Comes
  sync_recovers pcfg a s r c run failed = elim (sync_ingress-Comes pcfg a s r run) [
    | inl (nil, _) ↦ cc
    | inr (differ, (enough, (e, there))) ↦
        let known =
          subst (Synced s pcfg) there (apply-Synced enough s pcfg a s.nginx e c (unsent s pcfg)) in
        subst
          (λ c.
            (t : State) × ((sync_ingress h D hash pcfg all_accepted
                  (record { running_config = c; nginx = r.1.nginx })
                ≡ some (done, t))
              × IsConsistent h D t))
          (sym (known.failure failed))
          (recovers_from pcfg s enough r.1.nginx c differ e known.between)
  ]
