-- ===== src/CoreApi/Examples.antt =====
-- Concrete runs of the state of the core that is wanted.
use kokorobox_service.Common.{
  ◌⊎◌, Option, ◌==◌, ◌≡◌, Text, Bool, ◌∷◌, [], false, true, some, none, refl, ℕ,
}
use kokorobox_service.Common.Effects.{Post, done, works, fails}
use kokorobox_service.CoreApi.Desired.{
  DesiredCoreState, Json, DesiredCoreManager, log_group_for, set, core_stop,
}
use kokorobox_service.CoreApi.Desired.Persisted.{Decodes, reloaded, set_survives}
use kokorobox_service.CoreApi.Desired.Following.{
  tick, dies, happen, happen_all, wanted_core_runs, stopped_core_stays,
}

abbrev bit : Bool → ℕ
bit true = 1
bit false = 0

abbrev is_one : ℕ → Bool
is_one n = n == 1

abbrev encode_state : DesiredCoreState → Text
encode_state s = s.version ∷ bit s.running ∷ elim s.log_group [ none ↦ [] | some g ↦ g ∷ [] ]

abbrev decode_state : Text → Option DesiredCoreState
decode_state (v ∷ r ∷ []) = some (record { version = v; running = is_one r; log_group = none })
decode_state (v ∷ r ∷ g ∷ []) =
    some (record { version = v; running = is_one r; log_group = some g })
decode_state _ = none

abbrev toy_json : Json
toy_json = record { encode = encode_state; decode = decode_state }

decodes_by :
    (v : ℕ) (r : Bool) (g : Option ℕ)
    → decode_state (encode_state (record { version = v; running = r; log_group = g }))
      ≡ some (record { version = v; running = r; log_group = g })
decodes_by v true none = refl
decodes_by v true (some g) = refl
decodes_by v false none = refl
decodes_by v false (some g) = refl

toy_json-Decodes : Decodes toy_json
toy_json-Decodes s = decodes_by s.version s.running s.log_group

-- The flush of the directory fails, and the new state is on disk all the same.
abbrev manager : DesiredCoreManager
manager = record {
  has_path = true;
  has_core = true;
  watching = true;
  running = true;
  log_group = some 100;
  disk = none;
  core_runs = false;
  launches = [];
  faults = works ∷ works ∷ works ∷ works ∷ works ∷ works ∷ works ∷ works ∷ fails ∷ [];
}

set_survives_example :
    Post
      (λ _ t. reloaded toy_json t ≡ done tt (record t { faults = [] }))
      (λ _ t.
        (t.running ≡ true)
        × (t.log_group ≡ some 100)
        × ((t.disk ≡ none)
            ⊎ (t.disk
                ≡ some (
                    encode_state (record {
                      version = 1;
                      running = true;
                      log_group = log_group_for true none (some 100);
                    })))))
      (set toy_json false true none manager)
set_survives_example = set_survives toy_json false true none manager toy_json-Decodes

wanted_core_runs_example :
    (happen_all
      (happen
        (happen_all manager (tick works fails ∷ tick works works ∷ dies ∷ tick fails fails ∷ []))
        (tick works works))
      (tick fails fails ∷ tick works works ∷ [])).core_runs
    ≡ true
wanted_core_runs_example =
    wanted_core_runs manager (tick works fails ∷ tick works works ∷ dies ∷ tick fails fails ∷ [])
      (tick fails fails ∷ tick works works ∷ []) refl refl (tt, (tt, tt))

stopped_core_stays_example :
    Post
      (λ _ t.
        ((happen_all t (tick works works ∷ dies ∷ tick works works ∷ [])).core_runs ≡ false)
        × ((happen_all t (tick works works ∷ dies ∷ tick works works ∷ [])).launches ≡ []))
      (λ _ t. Unit {0})
      (core_stop toy_json true manager)
stopped_core_stays_example =
    stopped_core_stays toy_json true manager (tick works works ∷ dies ∷ tick works works ∷ [])
