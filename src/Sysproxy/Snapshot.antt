-- ===== src/Sysproxy/Snapshot.antt =====
-- What route/sysproxyapi compares of the proxy settings (sysproxy_guard.go). The settings and the options are those of
-- the package sysproxy, as far as this code reads them. A Go map is an association list, nil is `none`.
use kokorobox_service.Common.{
  is_empty, text_eq, not, get, ◌∷◌, [], Bool, codes, Text, List, Option, ◌&&◌, if◌then◌else◌, false,
  true, some, none, ℕ,
}

pub data GuardMode : Type 0 where
  proxy pac other_mode : GuardMode

abbrev pub StringMap : Type 0
StringMap = Option (List (Text × Text))

pub record ProxyConfig : Type 0 where
  pub enable : Bool
  pub same_for_all : Bool
  pub servers : StringMap
  pub bypass : Text
  pub pac_enable : Bool
  pub pac_url : Text

pub record Options : Type 0 where
  pub proxy_server : Text
  pub bypass : Text
  pub pac_url : Text
  pub device : Text
  pub only_active_device : Bool
  pub use_registry : Bool
  pub user_sid : Text
  pub peer_uid : ℕ
  pub peer_gid : ℕ
  pub peer_pid : ℕ
  pub environment : List Text

pub record GuardSnapshot : Type 0 where
  pub mode : GuardMode
  pub proxy_enable : Bool
  pub proxy_same_for_all : Bool
  pub proxy_servers : StringMap
  pub proxy_bypass : Text
  pub proxy_pac_conflict : Bool
  pub pac_enable : Bool
  pub pac_url : Text
  pub pac_proxy_conflict : Bool

unfoldable pub without_empty : List (Text × Text) → List (Text × Text)
without_empty [] = []
without_empty ((k, v) ∷ m) =
    let rest = without_empty m in if is_empty v then rest else (k, v) ∷ rest

unfoldable pub nil_if_empty : List (Text × Text) → StringMap
nil_if_empty [] = none
nil_if_empty (e ∷ m) = some (e ∷ m)

unfoldable pub copy_string_map : StringMap → StringMap
unfolding without_empty nil_if_empty
copy_string_map none = none
copy_string_map (some m) = nil_if_empty (without_empty m)

abbrev pub blank_snapshot : GuardMode → GuardSnapshot
blank_snapshot mode = record {
  mode = mode;
  proxy_enable = false;
  proxy_same_for_all = false;
  proxy_servers = none;
  proxy_bypass = [];
  proxy_pac_conflict = false;
  pac_enable = false;
  pac_url = [];
  pac_proxy_conflict = false;
}

unfoldable pub new_guard_snapshot : GuardMode → ProxyConfig → GuardSnapshot
unfolding copy_string_map
new_guard_snapshot proxy config = record (blank_snapshot proxy) {
  proxy_enable = config.enable;
  proxy_same_for_all = config.same_for_all;
  proxy_servers = copy_string_map config.servers;
  proxy_bypass = config.bypass;
  proxy_pac_conflict = config.pac_enable;
}
new_guard_snapshot pac config = record (blank_snapshot pac) {
  pac_enable = config.pac_enable;
  pac_url = config.pac_url;
  pac_proxy_conflict = config.enable;
}
new_guard_snapshot other_mode config = blank_snapshot other_mode

-- reflect.DeepEqual on maps: each has what the other has.
unfoldable pub has_all : List (Text × Text) → List (Text × Text) → Bool
has_all [] n = true
has_all ((k, v) ∷ m) n = elim (get k n) [ none ↦ false | some w ↦ text_eq v w ] && has_all m n

unfoldable pub maps_eq : StringMap → StringMap → Bool
unfolding has_all
maps_eq none none = true
maps_eq (some m) (some n) = has_all m n && has_all n m
maps_eq _ _ = false

unfoldable pub modes_eq : GuardMode → GuardMode → Bool
modes_eq proxy proxy = true
modes_eq pac pac = true
modes_eq other_mode other_mode = true
modes_eq _ _ = false

unfoldable pub bools_eq : Bool → Bool → Bool
bools_eq true b = b
bools_eq false b = not b

unfoldable pub snapshots_eq : GuardSnapshot → GuardSnapshot → Bool
unfolding maps_eq modes_eq bools_eq
snapshots_eq s t =
    modes_eq s.mode t.mode
    && (bools_eq s.proxy_enable t.proxy_enable
        && (bools_eq s.proxy_same_for_all t.proxy_same_for_all
            && (maps_eq s.proxy_servers t.proxy_servers
                && (text_eq s.proxy_bypass t.proxy_bypass
                    && (bools_eq s.proxy_pac_conflict t.proxy_pac_conflict
                        && (bools_eq s.pac_enable t.pac_enable
                            && (text_eq s.pac_url t.pac_url
                                && bools_eq s.pac_proxy_conflict t.pac_proxy_conflict)))))))

unfoldable pub guard_matches : GuardMode → GuardSnapshot → ProxyConfig → Bool
guard_matches mode expected current = snapshots_eq expected (new_guard_snapshot mode current)

unfoldable pub first_non_empty : List Text → Text
first_non_empty [] = []
first_non_empty (s ∷ ss) = let rest = first_non_empty ss in if is_empty s then rest else s

-- A map's value at a key, or the empty text.
unfoldable pub value_at : StringMap → Text → Text
value_at none k = []
value_at (some m) k = elim (get k m) [ none ↦ [] | some v ↦ v ]

unfoldable pub fill_apply_options : GuardMode → Options → GuardSnapshot → Options
unfolding first_non_empty value_at
fill_apply_options proxy opts expected = record opts {
  proxy_server = first_non_empty (
      value_at expected.proxy_servers (codes "http_server")
      ∷ value_at expected.proxy_servers (codes "https_server")
      ∷ value_at expected.proxy_servers (codes "socks_server")
      ∷ opts.proxy_server
      ∷ []);
  bypass = expected.proxy_bypass;
}
fill_apply_options pac opts expected = record opts { pac_url = expected.pac_url }
fill_apply_options other_mode opts expected = opts

abbrev pub no_options : Options
no_options = record {
  proxy_server = [];
  bypass = [];
  pac_url = [];
  device = [];
  only_active_device = false;
  use_registry = false;
  user_sid = [];
  peer_uid = 0;
  peer_gid = 0;
  peer_pid = 0;
  environment = [];
}

unfoldable pub guard_watch_options : Options → Options
guard_watch_options opts = record no_options {
  device = opts.device;
  only_active_device = opts.only_active_device;
  use_registry = opts.use_registry;
}
