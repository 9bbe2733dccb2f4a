-- ===== src/Devices/Validate.antt =====
-- `validate_device` of linkmoth_devices.py. A request has the types that its fields are cleaned to;
-- an absent key is `none`. Parsing and printing IPv4 addresses is the `ipaddress` library's.
use Prim.Native.String.{count}
use linkmoth.Prelude.{
  ℕ, ◌/◌, ◌*◌, ◌+◌, ◌^◌, String, Bool, true, false, not, ◌&&◌, ◌||◌, Option, none, some, all, any,
  leb, ◌==◌, if◌then◌else◌,
}
use linkmoth.Text.{codes, strip, has_prefix, eq_lower, is_empty}
use linkmoth.Devices.Data.{
  Preset, generic, printer, web_ui, tcp_service, Alerts, Settings, no_settings, tcp_port, web,
  Clean, Result, done, fail, value_error, ◌>>=◌, ◌>>◌,
}

-- `ipaddress.ip_address` on a text that is an IPv4 address, and `str` of an address.
pub record Ipv4 : Type 0 where
  pub parse : String → Option ℕ
  pub print : ℕ → String

pub record RawSettings : Type 0 where
  pub scheme : Option String
  pub port : Option ℕ
  pub path : Option String
  pub expected_status : Option ℕ
  pub body_contains : Option String
  pub verify_tls : Option Bool

-- A missing `alerts` object is the one with no key set.
pub record Request : Type 0 where
  pub name : String
  pub address : String
  pub preset : String
  pub enabled : Option Bool
  pub interval_seconds : Option ℕ
  pub alerts : Alerts
  pub settings : RawSettings

-- 10.0.0.0/8, 172.16.0.0/12 and 192.168.0.0/16.
abbrev pub is_private : ℕ → Bool
is_private a = a / 2 ^ 24 == 10 || a / 2 ^ 20 == 172 * 16 + 1 || a / 2 ^ 16 == 192 * 256 + 168

abbrev refuse {ℓ} : {A : Type ℓ} → Result A
refuse = fail value_error

abbrev require : Bool → Result (Unit {0})
require true = done tt
require false = refuse

abbrev with_default {ℓ} : {A : Type ℓ} → Option A → A → A
with_default none d = d
with_default (some a) d = a

abbrev absent {ℓ} : {A : Type ℓ} → Option A → Bool
absent none = true
absent (some a) = false

printable : String → Bool
printable s = all (λ c. leb 32 c) (codes s)

unfoldable pub clean_name : String → Result String
unfolding printable
clean_name value =
    let name = strip value in
    if leb 1 (count name) && leb (count name) 80 && printable name then done name else refuse

unfoldable pub clean_address : Ipv4 → String → Result String
clean_address ip value = elim (ip.parse (strip value)) [
  | none ↦ refuse
  | some a ↦ if is_private a then done (ip.print a) else refuse
]

unfoldable pub clean_port : Option ℕ → Result ℕ
clean_port none = refuse
clean_port (some port) = if leb 1 port && leb port 65535 then done port else refuse

no_web_keys : RawSettings → Bool
no_web_keys s =
    absent s.scheme
    && absent s.path
    && absent s.expected_status
    && absent s.body_contains
    && absent s.verify_tls

-- The characters of the path's regular expression.
path_char : ℕ → Bool
path_char c =
    (leb b'A' c && leb c b'Z')
    || (leb b'a' c && leb c b'z')
    || (leb b'0' c && leb c b'9')
    || any (λ d. c == d) (codes "/._~!$&'()*+,;=:@%?-")

valid_path : String → Bool
unfolding path_char
valid_path path =
    has_prefix "/" path
    && not (has_prefix "//" path)
    && leb (count path) 512
    && all path_char (codes path)

clean_scheme : Option String → Result Bool
clean_scheme none = done false
clean_scheme (some s) =
    if eq_lower "https" (strip s)
    then done true
    else if eq_lower "http" (strip s) || is_empty s
    then done false
    else refuse

body_char : ℕ → Bool
body_char c = leb 32 c || c == 9

path_or_root : Option String → String
path_or_root none = "/"
path_or_root (some s) = if is_empty s then "/" else s

clean_web : RawSettings → Result Settings
unfolding clean_scheme valid_path path_or_root body_char clean_port
clean_web s = do
  https ← clean_scheme s.scheme
  port ← clean_port (some (with_default s.port (if https then 443 else 80)))
  let path = strip (path_or_root s.path)
  require (valid_path path)
  let status = with_default s.expected_status 200
  require (leb 100 status && leb status 599)
  let body = with_default s.body_contains ""
  require (leb (count body) 256 && all body_char (codes body))
  done (
      web (record {
        https = https;
        port = port;
        path = path;
        expected_status = status;
        body_contains = body;
        verify_tls = if https then with_default s.verify_tls true else true;
      }))

unfoldable pub clean_settings : Preset → RawSettings → Result Settings
unfolding no_web_keys clean_web clean_port
clean_settings generic s = do require (absent s.port && no_web_keys s); done no_settings
clean_settings printer s = do require (absent s.port && no_web_keys s); done no_settings
clean_settings tcp_service s = do
  require (no_web_keys s)
  port ← clean_port s.port
  done (tcp_port port)
clean_settings web_ui s = clean_web s

clean_preset : String → Result Preset
clean_preset s =
    if eq_lower "generic" (strip s) || is_empty s
    then done generic
    else if eq_lower "printer" (strip s)
    then done printer
    else if eq_lower "web_ui" (strip s)
    then done web_ui
    else if eq_lower "tcp_service" (strip s)
    then done tcp_service
    else refuse

-- Membership in `ALLOWED_INTERVALS`.
abbrev pub allowed_interval : ℕ → Bool
allowed_interval n = n == 0 || n == 300 || n == 900 || n == 1800 || n == 3600

unfoldable pub validate_device : Ipv4 → Request → Result Clean
unfolding clean_preset
validate_device ip data' = do
  preset ← clean_preset data'.preset
  let interval = with_default data'.interval_seconds 0
  require (allowed_interval interval)
  name ← clean_name data'.name
  address ← clean_address ip data'.address
  settings ← clean_settings preset data'.settings
  done (record {
    name = name;
    address = address;
    preset = preset;
    enabled = with_default data'.enabled true;
    interval_seconds = interval;
    alerts = data'.alerts;
    settings = settings;
  })
