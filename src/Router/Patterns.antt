-- ===== src/Router/Patterns.antt =====
-- processrouter/types.go: which paths and names of programs a rule may have, and path.Clean and path.Base of Go.
use kokorobox_service.Common.{
  ℕ, Bool, false, not, ◌&&◌, ◌||◌, List, [], ◌∷◌, Text, codes, text_eq, is_empty, length, drop,
  to_lower, has_prefix, has_suffix, contains_byte, contains_any, split_on, join, all, any, ltb, leb,
  ◌==◌, if◌then◌else◌,
}
use kokorobox_service.Router.Wildcard.{wildcard_matches}

abbrev pub max_path_bytes : ℕ
max_path_bytes = 1023

-- The bytes after the last `b`, or the whole text.
unfoldable pub after_last : ℕ → Text → Text
after_last b [] = []
after_last b (c ∷ s) =
    let rest = after_last b s in if contains_byte s b then rest else if c == b then s else c ∷ s

-- The parts of a rooted path without empty ones and dots, the last one first.
unfoldable pub clean_parts : List Text → List Text → List Text
clean_parts done [] = done
clean_parts done (part ∷ parts) =
    let same = clean_parts done parts in
    let up = clean_parts (drop 1 done) parts in
    let down = clean_parts (part ∷ done) parts in
    if is_empty part || text_eq part (codes ".")
    then same
    else if text_eq part (codes "..")
    then up
    else down

unfoldable pub reverse_onto : List Text → List Text → List Text
reverse_onto done [] = done
reverse_onto done (t ∷ ts) = reverse_onto (t ∷ done) ts

-- path.Clean of a path that starts with a slash.
unfoldable pub clean_rooted : Text → Text
clean_rooted s = b'/' ∷ join b'/' (reverse_onto [] (clean_parts [] (split_on b'/' s)))

unfoldable pub drop_slashes : Text → Text
drop_slashes [] = []
drop_slashes (c ∷ s) =
    let rest = drop_slashes s in if is_empty rest && c == b'/' then [] else c ∷ rest

-- path.Base.
unfoldable pub path_base : Text → Text
path_base [] = codes "."
path_base (c ∷ s) =
    let stripped = drop_slashes (c ∷ s) in
    if is_empty stripped then codes "/" else after_last b'/' stripped

unfoldable pub valid_linux_executable_path : Text → Bool
valid_linux_executable_path value =
    not (is_empty value || ltb max_path_bytes (length value) || contains_byte value 0)
    && (has_prefix value (codes "/")
        && text_eq (clean_rooted value) value
        && not (text_eq value (codes "/")))
    && not (contains_any value (codes "*?;,\r\n"))

valid_name_byte : ℕ → Bool
valid_name_byte c = not (ltb c 32 || c == 127 || contains_byte (codes "/*?;,") c)

unfoldable pub valid_linux_process_name : Text → Bool
unfolding valid_name_byte
valid_linux_process_name value =
    not (
      is_empty value
      || text_eq value (codes ".")
      || text_eq value (codes "..")
      || ltb 255 (length value))
    && all valid_name_byte value

unfoldable pub is_ascii_alpha : ℕ → Bool
is_ascii_alpha c = leb b'a' c && leb c b'z' || leb b'A' c && leb c b'Z'

-- A drive, a colon and a backslash, with something after them.
unfoldable pub is_drive_path : Text → Bool
is_drive_path (d ∷ colon ∷ slash ∷ c ∷ s) = is_ascii_alpha d && colon == b':' && slash == b'\\'
is_drive_path _ = false

unfoldable pub is_unc_path : Text → Bool
is_unc_path value = ltb 4 (length value) && has_prefix value (codes "\\\\")

unfoldable pub valid_segment : Text → Bool
valid_segment s = not (
    is_empty s
    || text_eq s (codes ".")
    || text_eq s (codes "..")
    || has_suffix s (codes ".")
    || has_suffix s (codes " ")
    || contains_any s (codes "<>:\"|"))

unfoldable pub valid_windows_path : Text → Bool
valid_windows_path value =
    let segments =
      if is_unc_path value then split_on b'\\' (drop 2 value) else split_on b'\\' (drop 3 value) in
    let minimum = if is_unc_path value then 3 else 1 in
    (is_drive_path value || is_unc_path value)
    && leb minimum (length segments)
    && all valid_segment segments

unfoldable pub valid_windows_executable_pattern : Text → Bool
valid_windows_executable_pattern value =
    not (is_empty value || ltb max_path_bytes (length value) || contains_byte value 0)
    && not (contains_any value (codes "?;,\"") || contains_byte value b'/')
    && not (has_prefix value (codes "\\\\?\\") || has_prefix value (codes "\\\\.\\"))
    && not (any (λ c. ltb c 32) value)
    && has_suffix (to_lower value) (codes ".exe")
    && (if contains_byte value b'\\'
        then valid_windows_path value
        else not (contains_any value (codes "<>:|")) && not (text_eq value (codes ".exe")))

unfoldable pub windows_base_name : Text → Text
windows_base_name value = after_last b'\\' value

abbrev pub protected_names : List Text
protected_names =
    codes "kokorobox.exe"
    ∷ codes "mihomo.exe"
    ∷ codes "mihomo-alpha.exe"
    ∷ codes "kokorobox-service.exe"
    ∷ codes "sparkle-service.exe"
    ∷ codes "kokorobox-process-router.exe"
    ∷ codes "crashpad_handler.exe"
    ∷ codes "elevate.exe"
    ∷ codes "kokorobox"
    ∷ codes "mihomo"
    ∷ codes "mihomo-alpha"
    ∷ codes "kokorobox-service"
    ∷ codes "crashpad_handler"
    ∷ codes "chrome_crashpad_handler"
    ∷ []

abbrev pub setup_name : Text
setup_name = codes "kokorobox-desktop-windows-2.0.0-x64-setup.exe"

unfoldable pub is_protected_process : Text → Bool
is_protected_process name =
    let normalized = to_lower name in
    any (text_eq normalized) protected_names
    || has_prefix normalized (codes "kokorobox-desktop-windows-")
      && has_suffix normalized (codes "-setup.exe")

unfoldable pub is_protected_process_pattern : Text → Bool
is_protected_process_pattern pattern =
    any (wildcard_matches pattern) protected_names || wildcard_matches pattern setup_name
