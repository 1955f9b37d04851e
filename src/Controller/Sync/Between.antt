-- ===== src/Controller/Sync/Between.antt =====
-- What NGINX has in the course of a sync: what it had before, or what the sync gave it.
use ingress_nginx.Prelude.{Bool, true, false, not, some, ◌≡◌, ◌⊎◌, refl, arith, if-cases}
use ingress_nginx.Controller.Dynamic.{is_dynamic_configuration_enough}
use ingress_nginx.Types.Configuration.{Configuration}
use ingress_nginx.Types.Heap.{Heap}
use ingress_nginx.Controller.Sync.{
  DeepEqual, Nginx, State, Answers, configure_part, streams_equal, streams_of,
  configure_dynamically, Outcome, is_nil, reconfigure,
}
use ingress_nginx.Controller.Sync.Parts.{
  IsPart, configure_part-IsPart, configure_part-settles, streams_equal-IsEquiv,
}

module _ (h : Heap) where
  -- The second configuration comes from the first by changes none of which asks for a reload.
  pub data Reaches (c : Configuration) : Configuration → Type 0 where
    same : Reaches c c
    next :
        {d e : Configuration}
        → Reaches c d
        → is_dynamic_configuration_enough h d e ≡ some true
        → Reaches c e

  module _ (D : DeepEqual) where
    -- NGINX has the parts of the configuration that are sent.
    pub record HasParts (n : Nginx) (c : Configuration) : Type 0 where
      pub backends : D.backends n.backends c.backends ≡ true
      pub streams : streams_equal D n.streams (streams_of c) ≡ true
      pub servers : D.servers n.servers c.servers ≡ true

    -- NGINX has the running configuration: what it loaded differs from that in ways only that need no reload.
    pub record IsConsistent (s : State) : Type 0 where
      pub loaded : Reaches s.nginx.file s.running_config
      pub parts : HasParts s.nginx s.running_config

    -- NGINX has what it had, or what a sync of `pcfg` gave it, which loads `stamp` if `Needs` holds.
    pub record IsBetween (Needs : Type 0) (stamp running pcfg : Configuration) (old n : Nginx)
        : Type 0 where
      pub file : (n.file ≡ old.file) ⊎ (Needs × (n.file ≡ stamp))
      pub backends : IsPart D.backends running.backends pcfg.backends old.backends n.backends
      pub streams :
          IsPart (streams_equal D) (streams_of running) (streams_of pcfg) old.streams n.streams
      pub servers : IsPart D.servers running.servers pcfg.servers old.servers n.servers

    module _ (Needs : Type 0) (stamp : Configuration) where
      abbrev Configured : Configuration → Configuration → Nginx → Bool × Nginx → Type 0
      Configured running pcfg old q =
          IsBetween Needs stamp running pcfg old q.1 × (q.0 ≡ true → HasParts q.1 pcfg)

      configure_dynamically-Configured :
          (running pcfg : Configuration) (old n : Nginx) (a : Answers)
          → HasParts old running
          → IsBetween Needs stamp running pcfg old n
          → Configured running pcfg old (configure_dynamically D running pcfg a n)
      unfolding configure_dynamically
      configure_dynamically-Configured running pcfg old n a had w =
          let b = configure_part D.backends running.backends pcfg.backends a.backends n.backends in
          let s =
            configure_part (streams_equal D) (streams_of running) (streams_of pcfg) a.streams
              n.streams in
          let c = configure_part D.servers running.servers pcfg.servers a.servers n.servers in
          let wb =
            configure_part-IsPart D.backends running.backends pcfg.backends old.backends a.backends
              n.backends w.backends in
          let ws =
            configure_part-IsPart (streams_equal D) (streams_of running) (streams_of pcfg)
              old.streams a.streams n.streams w.streams in
          let wc =
            configure_part-IsPart D.servers running.servers pcfg.servers old.servers a.servers
              n.servers w.servers in
          if-cases (Configured running pcfg old) (not b.0) _ _
            (λ failed. (
              record { file = w.file; backends = wb; streams = w.streams; servers = w.servers },
              λ ok. cc,
            ))
            (λ b_ok.
              if-cases (Configured running pcfg old) (not s.0) _ _
                (λ failed. (
                  record { file = w.file; backends = wb; streams = ws; servers = w.servers },
                  λ ok. cc,
                ))
                (λ s_ok. (
                  record { file = w.file; backends = wb; streams = ws; servers = wc },
                  λ c_ok. record {
                    backends =
                        configure_part-settles D.backends running.backends pcfg.backends
                          D.backends-IsEquiv old.backends a.backends n.backends had.backends
                          w.backends (ground (arith, b_ok));
                    streams =
                        configure_part-settles (streams_equal D) (streams_of running)
                          (streams_of pcfg) (streams_equal-IsEquiv D) old.streams a.streams
                          n.streams had.streams w.streams (ground (arith, s_ok));
                    servers =
                        configure_part-settles D.servers running.servers pcfg.servers
                          D.servers-IsEquiv old.servers a.servers n.servers had.servers w.servers
                          c_ok;
                  },
                )))

      -- What holds of the outcome of a sync of `pcfg` that starts at the running configuration of `s`.
      pub record IsSynced (s : State) (pcfg : Configuration) (r : Outcome × State) : Type 0 where
        pub between : IsBetween Needs stamp s.running_config pcfg s.nginx r.1.nginx
        pub success : is_nil r.0 ≡ true → IsConsistent r.1
        pub failure : is_nil r.0 ≡ false → r.1.running_config ≡ s.running_config

      pub reconfigure-IsSynced :
          (s : State) (pcfg : Configuration) (a : Answers) (n : Nginx)
          → HasParts s.nginx s.running_config
          → IsBetween Needs stamp s.running_config pcfg s.nginx n
          → Reaches (configure_dynamically D s.running_config pcfg a n).1.file pcfg
          → IsSynced s pcfg (reconfigure D pcfg a (record s { nginx = n }))
      unfolding reconfigure
      reconfigure-IsSynced s pcfg a n had w reach =
          let r = configure_dynamically D s.running_config pcfg a n in
          let known = configure_dynamically-Configured s.running_config pcfg s.nginx n a had w in
          if-cases (IsSynced s pcfg) r.0 _ _
            (λ ok. record {
              between = known.0;
              success = λ nil. record { loaded = reach; parts = known.1 ok };
              failure = λ nil. cc;
            })
            (λ failed. record { between = known.0; success = λ nil. cc; failure = λ nil. refl })

    -- The requests leave what is loaded.
    pub configure_dynamically-file :
        (running pcfg : Configuration) (a : Answers) (n : Nginx)
        → (configure_dynamically D running pcfg a n).1.file ≡ n.file
    unfolding configure_dynamically
    configure_dynamically-file running pcfg a n =
        let b = configure_part D.backends running.backends pcfg.backends a.backends n.backends in
        let s =
          configure_part (streams_equal D) (streams_of running) (streams_of pcfg) a.streams
            n.streams in
        if-cases (λ (q : Bool × Nginx). q.1.file ≡ n.file) (not b.0) _ _ (λ failed. refl)
          (λ b_ok.
            if-cases (λ (q : Bool × Nginx). q.1.file ≡ n.file) (not s.0) _ _ (λ failed. refl)
              (λ s_ok. refl))
