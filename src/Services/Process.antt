-- ===== src/Services/Process.antt =====
-- What the `main` functions of the services share: flags, the options of `kratos.New`, and how the
-- process ends. `flag`, `os` and the app of kratos are a parameter.
use go_infrastructure.Prelude.{◌≡◌, ap, Option, none, some, List, ◌++◌, ℤ, ℕ, GoString, codes}
use go_infrastructure.Log.Std.{Bounded}

-- A flag with its default.
pub data Flag : Type 0 where
  string_var : (name value usage : GoString) → Flag
  duration_var : (name : GoString) (value : ℤ) (usage : GoString) → Flag

-- The build-time variables of a service.
pub record Build : Type 0 where
  pub name : GoString
  pub version : GoString
  pub commit : GoString
  pub build_time : GoString

pub data AppOption (Out Server Hook : Type 0) : Type 0 where
  id_is name_is version_is : GoString → AppOption Out Server Hook
  logger_is : Bounded Out → AppOption Out Server Hook
  servers_are : List Server → AppOption Out Server Hook
  before_stop_is : Hook → AppOption Out Server Hook

-- `hostname` is what `os.Hostname` returns with its error dropped, `run` is `Run` of the app that
-- `kratos.New` makes, an error by its text, and `fatal` what `Fatalf` logs before it exits.
pub record Host (Out Opt W : Type 0) : Type 0 where
  pub hostname : GoString
  pub stdout : Out
  pub run : List Opt → W → Option GoString × W
  pub fatal : GoString → W → W

-- How `main` ends: it returns, or `Fatalf` exits with a code.
pub data Exit (W : Type 0) : Type 0 where
  returns : W → Exit W
  exits : ℕ → W → Exit W

module _ {Out Opt W : Type 0} (host : Host Out Opt W) where
  -- The end of every `main`. A deferred cleanup runs at a return; an exit runs none.
  pub run_app : (W → W) → List Opt → W → Exit W
  run_app deferred opts w =
      let (err, w1) = host.run opts w in
      elim err [
        | none ↦ returns (deferred w1)
        | some text ↦ exits 1 (host.fatal (codes "app run: " ++ text) w1)
      ]

  pub run_app_lem :
      (deferred : W → W) (opts : List Opt) (w w1 : W) (err : Option GoString)
      → host.run opts w ≡ (err, w1)
      → run_app deferred opts w ≡ elim err [
        | none ↦ returns (deferred w1)
        | some text ↦ exits 1 (host.fatal (codes "app run: " ++ text) w1)
      ]
  unfolding run_app
  run_app_lem deferred opts w w1 err e =
      ap
        (λ (r : Option GoString × W). elim r.0 [
          | none ↦ returns (deferred r.1)
          | some text ↦ exits 1 (host.fatal (codes "app run: " ++ text) r.1)
        ])
        e
