-- ===== src/Start/Laws.antt =====
-- What holds of a server that `main` starts.
use multi_desk.Base.{
  ℕ, ◌≤◌, ◌≡◌, ◌≢◌, String, Option, none, some, List, [], ◌∷◌, true, not, ◌&&◌, ◌==◌, refl, sym,
  ◌∙◌, ap, arith, eq_iff, ltb, all, length, Bool-cases, Option-cases, inl, inr, if◌then◌else◌,
}
use multi_desk.Platform.State.{Service}
use multi_desk.Platform.Ice.{configure_ice, ice_error}
use multi_desk.Platform.Session.{present}
use multi_desk.Platform.Ice.Laws.{is_allowed, allowed-ice_error}
use multi_desk.Platform.Step.{init}
use multi_desk.Start.{
  Outside, Opened, Running, Exit, serves, ice_urls, new_with_store, listen_address, serve,
  configured, serve_with_key, with_key, ephemeral, start, in_memory,
}

serves-injective : (r t : Running) → serves r ≡ serves t → r ≡ t
serves-injective r t h = cc

-- the service with the settings, where there are URLs
abbrev pub with_ice : List String → String → Service → Service
with_ice [] secret s = s
with_ice (url ∷ urls) secret s = record s { ice_urls = url ∷ urls; turn_secret = secret }

module _ (o : Outside) where
  open o use {getenv, std_decode, read_random}

  -- Whatever server the exit is has the property.
  abbrev Serving : (Running → Type 0) → Exit → Type 0
  Serving P x = (r : Running) → x ≡ serves r → P r

  serving : (P : Running → Type 0) (r : Running) → P r → Serving P (serves r)
  serving P r p t h = rw (sym (serves-injective r t h)) p

  abbrev certificate : Option (String × String)
  certificate =
      if not (getenv "MUILTDESK_TLS_CERT" == "") && not (getenv "MUILTDESK_TLS_KEY" == "")
      then some (getenv "MUILTDESK_TLS_CERT", getenv "MUILTDESK_TLS_KEY")
      else none

  serve_rule :
      (P : Running → Type 0) (base : Opened) (s : Service)
      → ((r : Running) → r.service ≡ s → r.tls ≡ certificate → P r)
      → Serving P (serve o base s)
  unfolding serve
  serve_rule P base s go = elim (Option-cases (o.split_host_port (listen_address o))) [
    | inl e ↦ rw (e, serve) (λ r h. cc)
    | inr (host, e) ↦ rw (e, serve) (serving P _ (go _ refl refl))
  ]

  configured_rule :
      (P : Running → Type 0) (base : Opened) (urls : List String) (s : Service)
      → ((r : Running)
          → r.service ≡ with_ice urls (getenv "MUILTDESK_TURN_SECRET") s
          → all (is_allowed (getenv "MUILTDESK_TURN_SECRET")) urls ≡ true
          → r.tls ≡ certificate
          → P r)
      → Serving P (configured o base urls s)
  unfolding configured configure_ice present
  configured_rule P base [] s go = serve_rule P base s (λ r e t. go r e refl t)
  configured_rule P base (url ∷ urls) s go =
      let secret = getenv "MUILTDESK_TURN_SECRET" in
      elim (Option-cases (ice_error (url ∷ urls) secret)) [
        | inl e ↦
            rw (e, configured, configure_ice)
              (serve_rule P base _ (λ r f t.
                go r f (allowed-ice_error (url ∷ urls) secret ∙ ap (λ x. not (present x)) e) t))
        | inr (m, e) ↦ rw (e, configured, configure_ice) (λ r h. cc)
      ]

  -- what the part of `main` behind the choice of the key establishes
  abbrev SuitsKey : List ℕ → Running → Type 0
  SuitsKey key r =
      (32 ≤ length key)
      × (r.service
          ≡ with_ice (ice_urls (getenv "MUILTDESK_ICE_URLS")) (getenv "MUILTDESK_TURN_SECRET")
              (init key))
      × (all (is_allowed (getenv "MUILTDESK_TURN_SECRET")) (ice_urls (getenv "MUILTDESK_ICE_URLS"))
          ≡ true)
      × (r.tls ≡ certificate)

  serve_with_key-SuitsKey :
      (base : Opened) (key : List ℕ) → Serving (SuitsKey key) (serve_with_key o base key)
  unfolding serve_with_key new_with_store
  serve_with_key-SuitsKey base key = elim (Bool-cases (ltb (length key) 32)) [
    | inl short ↦ rw (short, serve_with_key) (λ r h. cc)
    | inr long ↦
        rw (long, serve_with_key)
          (configured_rule (SuitsKey key) base (ice_urls (getenv "MUILTDESK_ICE_URLS")) (init key)
            (λ r e a t. (ground arith, e, a, t)))
  ]

  with_key-SuitsKey : (key : List ℕ) → Serving (SuitsKey key) (with_key o key)
  unfolding with_key
  with_key-SuitsKey key = elim (Bool-cases (getenv "DATABASE_URL" == "")) [
    | inl e ↦ rw e (serve_with_key-SuitsKey in_memory key)
    | inr e ↦ rw e (elim (Option-cases (o.new_postgres_store (getenv "DATABASE_URL"))) [
      | inl f ↦ rw (f, with_key) (serve_with_key-SuitsKey _ key)
      | inr (m, f) ↦ rw (f, with_key) (λ r h. cc)
    ])
  ]

  -- What stands behind a server that `main` has started.
  pub record IsStarted (r : Running) : Type 0 where
    pub key : List ℕ
    -- the key comes from the environment, or else from the random source
    pub given : getenv "MUILTDESK_JWT_KEY" ≢ "" → std_decode (getenv "MUILTDESK_JWT_KEY") ≡ some key
    pub drawn : getenv "MUILTDESK_JWT_KEY" ≡ "" → read_random 32 ≡ some key
    pub long : 32 ≤ length key
    pub service :
        r.service
        ≡ with_ice
            (ice_urls (getenv "MUILTDESK_ICE_URLS"))
            (getenv "MUILTDESK_TURN_SECRET")
            (init key)
    pub allowed :
        all (is_allowed (getenv "MUILTDESK_TURN_SECRET")) (ice_urls (getenv "MUILTDESK_ICE_URLS"))
        ≡ true
    pub encrypted : r.tls ≡ certificate

  -- A server that `main` starts has a signing key of at least 32 bytes, decoded from the environment
  -- where that names one and read from the random source otherwise; it starts empty, with the trimmed
  -- URLs and the secret of the environment, which `ConfigureICE` allows; and it uses TLS exactly if
  -- both the certificate and its key are named.
  pub start-IsStarted : (r : Running) → start o ≡ serves r → IsStarted r
  unfolding start ephemeral
  start-IsStarted = elim (Bool-cases (getenv "MUILTDESK_JWT_KEY" == "")) [
    | inl e ↦ rw e (elim (Option-cases (read_random 32)) [
      | inl f ↦ rw (f, ephemeral) (λ r h. cc)
      | inr (key, f) ↦
          rw (f, ephemeral)
            (λ r h.
              let (long, service, allowed, tls) = with_key-SuitsKey key r h in
              record {
                key = key;
                given = λ other. absurd (other ((eq_iff (getenv "MUILTDESK_JWT_KEY") "").0 e));
                drawn = λ same. f;
                long = long;
                service = service;
                allowed = allowed;
                encrypted = tls;
              })
    ])
    | inr e ↦ rw e (elim (Option-cases (std_decode (getenv "MUILTDESK_JWT_KEY"))) [
      | inl f ↦ rw (f, start) (λ r h. cc)
      | inr (key, f) ↦
          rw (f, start)
            (elim (Bool-cases (ltb (length key) 32)) [
              | inl short ↦ rw short (λ r h. cc)
              | inr enough ↦ rw enough (λ r h.
                  let (long, service, allowed, tls) = with_key-SuitsKey key r h in
                  record {
                    key = key;
                    given = λ other. f;
                    drawn = λ same. ground (arith, eq_iff (getenv "MUILTDESK_JWT_KEY") "");
                    long = long;
                    service = service;
                    allowed = allowed;
                    encrypted = tls;
                  })
            ])
    ])
  ]
