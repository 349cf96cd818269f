-- ===== src/Sysproxy/Requests.antt =====
-- The requests that set, give up and hand over the proxy settings (sysproxy.go, sysproxy_native_handoff.go), each under
-- the mutex. The runner is that of the request's peer, if it can be captured, and the options are as
-- `prepareSysproxyOptions` leaves them; the PAC server, where a script came, has been started, and its address is in
-- the options.
use kokorobox_service.Common.{
  to_lower, codes, trim_space, text_eq, ltb, map, is_empty, join, all, ◌==◌, not, List, Option,
  Text, Bool, ◌||◌, ◌&&◌, if◌then◌else◌, ◌∷◌, [], false, true, some, none, ℕ,
}
use kokorobox_service.Common.Effects.{done, failure, ◌>>=◌, ◌>>◌, pure, fail, modify}
use kokorobox_service.Sysproxy.Snapshot.{
  GuardMode, pac, Options, GuardSnapshot, StringMap, first_non_empty, value_at,
}
use kokorobox_service.Sysproxy.Lease.{
  ProxySystem, Runner, Lease, State, Step, attempt, no_session, disable_failed, setting_differs,
  stop_guard, stop_managed_proxy_recovery, forget_lease, renew_lease, replace_lease, runner_apply,
  capture_lease,
}
use kokorobox_service.Sysproxy.Records.{RecordJson, persist_managed_proxy, begin_managed_proxy}
use kokorobox_service.Sysproxy.Guard.{GuardConfig, configure_guard}
use mathlib.Core.List.{reverse}

-- strings.FieldsFunc at ";" and ",", which drops empty fields; `field` is the part that is read, backwards.
unfoldable pub fields_from : Text → Text → List Text
fields_from [] [] = []
fields_from (c ∷ field) [] = reverse (c ∷ field) ∷ []
fields_from [] (d ∷ s) =
    let skip = fields_from [] s in
    let take_in = fields_from (d ∷ []) s in if d == b';' || d == b',' then skip else take_in
fields_from (c ∷ field) (d ∷ s) =
    let cut = reverse (c ∷ field) ∷ fields_from [] s in
    let take_in = fields_from (d ∷ c ∷ field) s in if d == b';' || d == b',' then cut else take_in

-- The order of sort.Strings.
unfoldable pub text_le : Text → Text → Bool
text_le [] t = true
text_le (a ∷ s) [] = false
text_le (a ∷ s) (b ∷ t) = if a == b then text_le s t else ltb a b

unfoldable pub insert_text : Text → List Text → List Text
insert_text s [] = s ∷ []
insert_text s (t ∷ ts) = let rest = insert_text s ts in if text_le s t then s ∷ t ∷ ts else t ∷ rest

unfoldable pub sort_texts : List Text → List Text
sort_texts [] = []
sort_texts (t ∷ ts) = insert_text t (sort_texts ts)

unfoldable pub normalized_native_bypass : Text → Text
unfolding fields_from sort_texts insert_text text_le
normalized_native_bypass value =
    join b';' (sort_texts (map trim_space (fields_from [] (to_lower value))))

unfoldable pub all_are : Text → StringMap → Bool
all_are server none = true
all_are server (some m) = all (λ e. is_empty e.1 || text_eq e.1 server) m

unfoldable pub native_matches : GuardMode → GuardSnapshot → Options → Bool
unfolding all_are
native_matches pac expected opts =
    expected.pac_enable
    && (not expected.pac_proxy_conflict && text_eq expected.pac_url opts.pac_url)
native_matches _ expected opts =
    let server = first_non_empty (
      value_at expected.proxy_servers (codes "http_server")
      ∷ value_at expected.proxy_servers (codes "https_server")
      ∷ value_at expected.proxy_servers (codes "socks_server")
      ∷ []) in
    (expected.proxy_enable
      && (not expected.proxy_pac_conflict
          && (text_eq server opts.proxy_server
              && text_eq (normalized_native_bypass expected.proxy_bypass)
                  (normalized_native_bypass opts.bypass))))
    && all_are opts.proxy_server expected.proxy_servers

module _ {Os : Type 0} (sys : ProxySystem Os) (json : RecordJson) where
  abbrev pub Guarded : Type 0
  Guarded = Option (ℕ × GuardConfig)

  unfoldable pub captured_runner : Option Runner → Step sys Runner
  captured_runner none = fail no_session
  captured_runner (some r) = pure r

  -- The error of starting a guard is only told.
  unfoldable pub guard_best_effort : Bool → GuardMode → Options → Runner → Step sys Guarded
  guard_best_effort guard mode opts r s = elim (configure_guard sys guard mode opts r s) [
    | done g t ↦ done g t
    | failure e t ↦ done none t
  ]

  -- `proxy` and `pac`, by the mode.
  unfoldable pub set_settings : GuardMode → Option Runner → Options → Bool → Step sys Guarded
  set_settings mode peer opts guard = do
    r ← captured_runner peer
    runner_apply sys r mode opts
    begin_managed_proxy sys json r mode opts
    modify stop_guard
    guard_best_effort guard mode opts r

  unfoldable pub disable : Options → Step sys (Unit {0})
  disable opts = do
    attempt (λ s. record s { os = sys.disable opts s.os }) disable_failed
    modify (λ s. forget_lease (stop_guard s))

  unfoldable pub renew : State Os → Bool × State Os
  renew s = renew_lease s

  unfoldable pub prepare_native_proxy : State Os → State Os
  prepare_native_proxy s = forget_lease (stop_guard (stop_managed_proxy_recovery s))

  unfoldable pub confirmed : Lease → Options → Step sys Lease
  confirmed l opts = if native_matches l.mode l.expected opts then pure l else fail setting_differs

  unfoldable pub capture_native_lease : GuardMode → Options → Runner → Step sys Lease
  capture_native_lease mode opts r = do l ← capture_lease sys mode opts r; confirmed l opts

  unfoldable pub adopt_native_proxy : GuardMode → Option Runner → Options → Bool → Step sys Guarded
  adopt_native_proxy mode peer opts guard = do
    r ← captured_runner peer
    l ← capture_native_lease mode opts r
    persist_managed_proxy sys json l
    modify (replace_lease l)
    guard_best_effort guard mode opts r
