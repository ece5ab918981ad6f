-- ===== src/Start.antt =====
-- `main` of server/cmd/server/main.go: how the environment becomes a configured server. Environment,
-- network and database are parameters.
pub mod Laws
use Prim.Native.Char.{code}
use Prim.Native.String.{◌++◌}
use multi_desk.Base.{
  ℕ, String, Option, none, some, List, [], ◌∷◌, Bool, true, false, not, ◌&&◌, ◌||◌, ◌==◌, num_eq,
  ltb, length, if◌then◌else◌,
}
use multi_desk.Base.Text.{trim_space}
use multi_desk.Security.Token.Split.{put_front}
use multi_desk.Platform.State.{Service}
use multi_desk.Platform.Ice.{configure_ice}
use multi_desk.Platform.Step.{init}

-- What `main` calls; an error is a text.
pub record Outside : Type 0 where
  -- `os.Getenv`
  pub getenv : String → String
  -- `base64.StdEncoding.DecodeString`
  pub std_decode : String → Option (List ℕ)
  -- `rand.Read` of so many bytes
  pub read_random : ℕ → Option (List ℕ)
  -- `store.NewPostgresStore(ctx, url)`
  pub new_postgres_store : String → Option String
  -- `redis.ParseURL` together with `store.NewRedisStore`
  pub parse_redis_url : String → Option String
  pub new_redis_store : String → Option String
  -- the host of `net.SplitHostPort`
  pub split_host_port : String → Option String
  -- `net.ParseIP` gives an address, and it is one of the loopback
  pub is_loopback : String → Bool

-- which store `main` opens
pub data Opened : Type 0 where
  postgres : String → Opened
  in_memory : Opened

-- The server that `main` starts; without TLS it calls `ListenAndServe`.
pub record Running : Type 0 where
  pub address : String
  pub base : Opened
  pub with_redis : Bool
  pub service : Service
  pub warned : Bool
  pub tls : Option (String × String)

-- `os.Exit(1)` behind a log line, a panic, or the server
pub data Exit : Type 0 where
  exits : String → Exit
  panics : Exit
  serves : Running → Exit

-- `strings.Split(raw, ",")`
unfoldable pub split_commas : String → List String
split_commas String.[] = String.[] ∷ []
split_commas (String.◌∷◌ c s) =
    let rest = split_commas s in if num_eq (code c) 0x2C then String.[] ∷ rest else put_front c rest

-- the loop over the parts of `MUILTDESK_ICE_URLS`
unfoldable pub trimmed : List String → List String
trimmed [] = []
trimmed (url ∷ urls) =
    let rest = trimmed urls in if not (trim_space url == "") then trim_space url ∷ rest else rest

unfoldable pub ice_urls : String → List String
ice_urls raw = if not (raw == "") then trimmed (split_commas raw) else []

-- `strings.Trim(host, "[]")`
is_bracket : ℕ → Bool
is_bracket c = num_eq c 0x5B || num_eq c 0x5D

only_brackets : String → Bool
unfolding is_bracket
only_brackets String.[] = true
only_brackets (String.◌∷◌ c s) = is_bracket (code c) && only_brackets s

trim_end : String → String
unfolding only_brackets
trim_end String.[] = String.[]
trim_end (String.◌∷◌ c s) =
    if only_brackets (String.◌∷◌ c s) then String.[] else String.◌∷◌ c (trim_end s)

unfoldable pub trim_brackets : String → String
unfolding is_bracket trim_end
trim_brackets String.[] = String.[]
trim_brackets (String.◌∷◌ c s) =
    let rest = trim_brackets s in if is_bracket (code c) then rest else trim_end (String.◌∷◌ c s)

-- `NewWithStore(key, st)` up to its panic
unfoldable pub new_with_store : List ℕ → Option Service
new_with_store key = if ltb (length key) 32 then none else some (init key)

module _ (o : Outside) where
  open o use {
    getenv, std_decode, read_random, new_postgres_store, parse_redis_url, new_redis_store,
    split_host_port, is_loopback,
  }

  unfoldable pub listen_address : String
  listen_address =
      if not (getenv "MUILTDESK_ADDR" == "")
      then getenv "MUILTDESK_ADDR"
      else if not (getenv "PORT" == "")
      then "0.0.0.0:" ++ getenv "PORT"
      else "0.0.0.0:8080"

  -- whether Redis is put before the store; no error there stops `main`
  unfoldable pub opens_redis : String → Bool
  opens_redis url = if url == "" then false else elim (parse_redis_url url) [
    | some e ↦ false
    | none ↦ elim (new_redis_store url) [ some e ↦ false | none ↦ true ]
  ]

  -- from the listen address on
  unfoldable pub serve : Opened → Service → Exit
  serve base service = elim (split_host_port listen_address) [
    | none ↦ exits "invalid listen address"
    | some host ↦
        let cert = getenv "MUILTDESK_TLS_CERT" in
        let keyfile = getenv "MUILTDESK_TLS_KEY" in
        serves (record {
          address = listen_address;
          base = base;
          with_redis = opens_redis (getenv "REDIS_URL");
          service = service;
          warned = not (is_loopback (trim_brackets host)) && (cert == "" || keyfile == "");
          tls = if not (cert == "") && not (keyfile == "") then some (cert, keyfile) else none;
        })
  ]

  -- `service.ConfigureICE`, where there are URLs
  unfoldable pub configured : Opened → List String → Service → Exit
  configured base [] service = serve base service
  configured base (url ∷ urls) service =
      go (configure_ice (url ∷ urls) (getenv "MUILTDESK_TURN_SECRET") service)
    where
      go : Service × Option String → Exit
      go (s, some e) = exits "invalid ICE configuration"
      go (s, none) = serve base s

  unfoldable pub serve_with_key : Opened → List ℕ → Exit
  serve_with_key base key = elim (new_with_store key) [
    | none ↦ panics
    | some service ↦ configured base (ice_urls (getenv "MUILTDESK_ICE_URLS")) service
  ]

  -- from the choice of the store on
  unfoldable pub with_key : List ℕ → Exit
  with_key key =
      if getenv "DATABASE_URL" == ""
      then serve_with_key in_memory key
      else elim (new_postgres_store (getenv "DATABASE_URL")) [
        | some e ↦ exits "failed to connect to PostgreSQL; check connection string"
        | none ↦ serve_with_key (postgres (getenv "DATABASE_URL")) key
      ]

  unfoldable pub ephemeral : Exit
  ephemeral = elim (read_random 32) [ none ↦ panics | some key ↦ with_key key ]

  abbrev bad_key : Exit
  bad_key = exits "MUILTDESK_JWT_KEY must be base64 of at least 32 random bytes"

  unfoldable pub start : Exit
  start =
      if getenv "MUILTDESK_JWT_KEY" == ""
      then ephemeral
      else elim (std_decode (getenv "MUILTDESK_JWT_KEY")) [
        | none ↦ bad_key
        | some key ↦ if ltb (length key) 32 then bad_key else with_key key
      ]
