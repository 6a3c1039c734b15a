-- ===== src/ConfigStore/Wpa.antt =====
-- wpa_supplicant.conf: `StripQuotes`, `QuoteForWpa`, `ParseWpaData` and the line editing of
-- `SaveWpaSupplicant` in chime/src/webd/config_store.cpp.
pub mod Quotes
pub mod Block
pub mod Lines
pub mod Saved
pub mod RoundTrip
pub mod Written
use virtualchime.Base.{
  ℕ, zero, suc, ◌+◌, ◌-◌, Bool, true, false, not, ◌&&◌, ◌||◌, List, [], ◌∷◌, ◌++◌, Option, none,
  some, if◌then◌else◌, is_empty, Bytes, codes, bytes_eq, split_at, ◌==◌, take, drop,
}
use virtualchime.Text.{trim}
use virtualchime.ConfigStore.Types.{StoreError, password_blank, password_missing, SaveRequest}

-- `s.back()` of a text that is not empty, and the text without it.
pub last_or : ℕ → Bytes → ℕ
last_or d [] = d
last_or d (c ∷ cs) = last_or c cs

pub init : Bytes → Bytes
init [] = []
init (c ∷ []) = []
init (c ∷ d ∷ cs) = c ∷ init (d ∷ cs)

-- The loop of `StripQuotes`; the flag is `escape`.
pub unescape : Bool → Bytes → Bytes
unescape escape [] = []
unescape true (c ∷ cs) = c ∷ unescape false cs
unescape false (c ∷ cs) = elim (c == b'\\') [
  | true ↦ unescape true cs
  | false ↦ c ∷ unescape false cs
]

pub strip_trimmed : Bytes → Bytes
unfolding last_or init unescape
strip_trimmed [] = []
strip_trimmed (c ∷ []) = c ∷ []
strip_trimmed (c ∷ d ∷ cs) =
    if not (c == b'"') || not (last_or d cs == b'"')
    then c ∷ d ∷ cs
    else unescape false (init (d ∷ cs))

unfoldable pub strip_quotes : Bytes → Bytes
unfolding strip_trimmed trim
strip_quotes value = strip_trimmed (trim value)

pub escape_for_wpa : Bytes → Bytes
escape_for_wpa [] = []
escape_for_wpa (c ∷ cs) =
    let rest = escape_for_wpa cs in if c == b'\\' || c == b'"' then b'\\' ∷ c ∷ rest else c ∷ rest

unfoldable pub quote_for_wpa : Bytes → Bytes
unfolding escape_for_wpa
quote_for_wpa value = b'"' ∷ (escape_for_wpa value ++ codes "\"")

pub record WpaData : Type 0 where
  pub ssid : Bytes
  pub psk : Bytes
  pub has_network_block : Bool
  pub block_start : ℕ
  pub block_end : ℕ

-- The key of a trimmed line, and the text behind the `=`.
pub wpa_key_value : Bytes → Option (Bytes × Bytes)
unfolding trim split_at
wpa_key_value trimmed = elim (split_at b'=' trimmed) [
  | none ↦ none
  | some (key, value) ↦ some (trim key, trim value)
]

abbrev pub assign_field : WpaData → Option (Bytes × Bytes) → WpaData
assign_field d none = d
assign_field d (some (key, value)) =
    if bytes_eq key (codes "ssid")
    then record d { ssid = strip_quotes value }
    else if bytes_eq key (codes "psk")
    then record d { psk = strip_quotes value }
    else d

abbrev pub opens : Bytes → Bool
opens line = bytes_eq (trim line) (codes "network={")

abbrev pub closes : Bytes → Bool
closes line = bytes_eq (trim line) (codes "}")

-- The loop of `ParseWpaData` from line `i` on, inside the block and before it. A block that is not
-- closed does not count as one.
pub parse_inside : ℕ → List Bytes → WpaData → WpaData
unfolding wpa_key_value strip_quotes bytes_eq
parse_inside i [] d = record d { has_network_block = false }
parse_inside i (line ∷ lines) d = elim (closes line) [
  | true ↦ record d { block_end = i }
  | false ↦ parse_inside (i + 1) lines (assign_field d (wpa_key_value (trim line)))
]

pub parse_outside : ℕ → List Bytes → WpaData → WpaData
unfolding parse_inside
parse_outside i [] d = d
parse_outside i (line ∷ lines) d = elim (opens line) [
  | true ↦ parse_inside (i + 1) lines (record d { has_network_block = true; block_start = i })
  | false ↦ parse_outside (i + 1) lines d
]

abbrev pub empty_data : WpaData
empty_data = record {
  ssid = [];
  psk = [];
  has_network_block = false;
  block_start = 0;
  block_end = 0;
}

unfoldable pub parse_wpa_data : List Bytes → WpaData
unfolding parse_outside
parse_wpa_data lines = parse_outside 0 lines empty_data

-- The new line, and whether it is the one of `ssid` or of `psk`.
abbrev pub edit_line : Bytes → Bytes → Bytes → Option (Bytes × Bytes) → Bytes × Bool × Bool
edit_line ssid_line psk_line line none = (line, false, false)
edit_line ssid_line psk_line line (some (key, value)) =
    if bytes_eq key (codes "ssid")
    then (ssid_line, true, false)
    else if bytes_eq key (codes "psk")
    then (psk_line, false, true)
    else (line, false, false)

-- The loop over `count` lines behind the first `skip`: the lines, `ssid_written`, `psk_written`.
pub edit_range : Bytes → Bytes → ℕ → ℕ → List Bytes → List Bytes × Bool × Bool
unfolding wpa_key_value bytes_eq
edit_range ssid_line psk_line skip count [] = ([], false, false)
edit_range ssid_line psk_line (suc skip) count (line ∷ lines) =
    let (rest, ssid, psk) = edit_range ssid_line psk_line skip count lines in
    (line ∷ rest, ssid, psk)
edit_range ssid_line psk_line zero zero (line ∷ lines) = (line ∷ lines, false, false)
edit_range ssid_line psk_line zero (suc count) (line ∷ lines) =
    let (rest, ssid, psk) = edit_range ssid_line psk_line zero count lines in
    let (new, is_ssid, is_psk) = edit_line ssid_line psk_line line (wpa_key_value (trim line)) in
    (new ∷ rest, is_ssid || ssid, is_psk || psk)

-- `lines.insert(lines.begin() + pos, line)`.
abbrev pub insert_at : ℕ → Bytes → List Bytes → List Bytes
insert_at pos line lines = take pos lines ++ (line ∷ drop pos lines)

abbrev pub insert_missing : Bytes → Bytes → ℕ → List Bytes × Bool × Bool → List Bytes
insert_missing ssid_line psk_line block_end (lines, ssid_written, psk_written) =
    let with_ssid = if ssid_written then lines else insert_at block_end ssid_line lines in
    let insert_pos = if ssid_written then block_end else block_end + 1 in
    if psk_written then with_ssid else insert_at insert_pos psk_line with_ssid

pub last_is_empty : List Bytes → Bool
last_is_empty [] = true
last_is_empty (line ∷ []) = is_empty line
last_is_empty (line ∷ next ∷ lines) = last_is_empty (next ∷ lines)

abbrev pub ssid_line_of : Bytes → Bytes
ssid_line_of ssid = codes "    ssid=" ++ quote_for_wpa ssid

abbrev pub psk_line_of : Bytes → Bytes
psk_line_of password = codes "    psk=" ++ quote_for_wpa password

pub write_network : WpaData → Bytes → Bytes → List Bytes → List Bytes
unfolding edit_range last_is_empty
write_network parsed ssid_line psk_line lines =
    if not parsed.has_network_block
    then (if last_is_empty lines then lines else lines ++ [] ∷ [])
      ++ (codes "network={" ∷ ssid_line ∷ psk_line ∷ codes "}" ∷ [])
    else insert_missing ssid_line psk_line parsed.block_end (
        edit_range ssid_line psk_line (parsed.block_start + 1)
          (parsed.block_end - (parsed.block_start + 1)) lines)

-- An empty file gets a header.
abbrev pub with_header : List Bytes → List Bytes
with_header [] =
    codes "ctrl_interface=/var/run/wpa_supplicant"
    ∷ codes "update_config=1"
    ∷ codes "country=US"
    ∷ []
    ∷ []
with_header (line ∷ lines) = line ∷ lines

pub data Chosen : Type 0 where
  password : Bytes → Chosen
  refused : StoreError → Chosen

abbrev pub kept_password : StoreError → Bytes → Chosen
kept_password error psk = if is_empty psk then refused error else password psk

-- The password to write: the request's, or the one that the file has.
abbrev pub choose_password : Option Bytes → Bytes → Chosen
choose_password none psk = kept_password password_missing psk
choose_password (some given) psk =
    if is_empty given then kept_password password_blank psk else password given

pub data Edited : Type 0 where
  edited : List Bytes → Edited
  rejected : StoreError → Edited

abbrev edit_with : SaveRequest → List Bytes → Chosen → Edited
edit_with request lines (refused error) = rejected error
edit_with request lines (password p) = edited (
    write_network (parse_wpa_data lines) (ssid_line_of request.config.wifi_ssid) (psk_line_of p)
      lines)

-- `SaveWpaSupplicant` between the reading and the writing of the file.
unfoldable pub edit_wpa : SaveRequest → List Bytes → Edited
unfolding parse_wpa_data write_network quote_for_wpa
edit_wpa request read =
    let lines = with_header read in
    edit_with request lines (choose_password request.wifi_password (parse_wpa_data lines).psk)
