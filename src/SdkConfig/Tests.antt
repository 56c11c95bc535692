-- ===== src/SdkConfig/Tests.antt =====
-- A configuration of a prefix and a coin type that knows whether it is sealed.
use sandbox_ledger.Base.{
  some, ℕ, ◌+◌, String, ◌≡◌, refl, Bool, true, false, foreign, Result, ok, err, Outcome, returned,
  panicked, exited, if◌then◌else◌,
}
use sandbox_ledger.SdkConfig.{SdkConfigLib, setup_sdk_config, Commands, main}
use sandbox_ledger.SdkConfig.Laws.{
  SealLaws, calls, safe_set_address_prefixes-setup_sdk_config, main_seals,
}
use sandbox_ledger.Wiring.Sample.{env, answers}

record Settings : Type 0 where
  prefix : String
  coin_type : ℕ
  is_sealed : Bool

abbrev fresh : Settings
fresh = record { prefix = ""; coin_type = 118; is_sealed = false }

-- A setter, given what it makes of the configuration.
abbrev set : (Settings → Settings) → Settings → Outcome Settings
set f c = if c.is_sealed then panicked (foreign "Config is sealed") else returned (f c)

abbrev lib : SdkConfigLib
lib = record {
  Config = Settings;
  set_bech32_prefixes = set (λ c. record c { prefix = "cosmos" });
  set_coin_type = set (λ c. record c { coin_type = 60 });
  set_purpose = set (λ c. c);
  set_full_fundraiser_path = set (λ c. c);
  seal = λ c. returned (record c { is_sealed = true });
}

abbrev laws : SealLaws lib
laws = record {
  is_sealed = λ c. c.is_sealed;
  prefixes_sealed = λ c h. (foreign "Config is sealed", rw h refl);
  prefixes_open = λ c h. (record c { prefix = "cosmos" }, rw h refl, h);
  coin_type_open = λ c h. (record c { coin_type = 60 }, rw h refl, h);
  purpose_open = λ c h. (c, rw h refl, h);
  path_open = λ c h. (c, rw h refl, h);
  seals = λ c. (record c { is_sealed = true }, refl, refl);
}

abbrev commands : Result ℕ → Result (Unit {0}) → Commands lib
commands home runs = record {
  Home = ℕ;
  RootCmd = ℕ;
  home_directory = home;
  read_from_client_config = λ ctx. (ctx, some (foreign "no client.toml"));
  env = env;
  commands = λ app home subcommands. home;
  add_tx_flags = λ cmd. ok cmd;
  enhance_root_command = λ app ctx cmd. ok (cmd + 1);
  execute = λ _. runs;
}

no_home : main lib (commands (err (foreign "$HOME is not defined")) (ok tt)) fresh ≡ exited 1
unfolding main
no_home = refl

safe_set_address_prefixes-setup_sdk_config_example :
    (c' : Settings) × (setup_sdk_config lib fresh ≡ returned c')
    × (c'.is_sealed ≡ true)
    × (calls lib 3 (record { done = false; config = fresh })
        ≡ returned (record { done = true; config = c' }))
safe_set_address_prefixes-setup_sdk_config_example =
    safe_set_address_prefixes-setup_sdk_config lib laws 2 fresh refl

main_seals_example :
    (final : Settings) × (final.is_sealed ≡ true)
    × (main lib (commands (ok 4) (ok tt)) fresh ≡ returned final)
main_seals_example =
    main_seals lib laws (commands (ok 4) (ok tt)) (answers 0 true) (λ home. home + 1) fresh
      (λ home. refl) refl
