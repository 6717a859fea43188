-- ===== src/Client/Config/Read.antt =====
-- Config, LoadGlobalConfig and GetGlobalConfig of NexFile/client/config.c, on pointers that are not
-- null. `strtol` and `inet_pton` are arguments; the file is the list of the lines that `fgets` reads,
-- or `none` if it does not open.
pub mod Bounds
use nex_file.Base.{
  ℕ, ◌+◌, ◌-◌, ◌<◌, ◌≤◌, ◌≡◌, refl, ap, ℤ, pos, minus_one, is_nonpos, pos_part, Bool, true, false,
  not, ◌||◌, ◌&&◌, Bool-cases, inl, inr, Bytes, byte_at, codes, text_eq, List, [], ◌∷◌, length,
  length-take, take, ltb, leb, ◌==◌, if◌then◌else◌, Option, none, some, Option-cases, arith,
}
use nex_file.Client.Config.{extract_xml_tag_value}

-- `strtol(s, &end, 10)`: the number, and the index of `end`
abbrev pub Strtol : Type 0
Strtol = Bytes → ℤ × ℕ

-- `inet_pton(AF_INET, ip, …)`: the address if the text is one
abbrev pub InetPton : Type 0
InetPton = Bytes → Option ℕ

-- `Config_t`; the port is the number before `htons`.
pub record ClientConfig : Type 0 where
  pub sin_family : ℕ
  pub sin_port : ℕ
  pub sin_addr : ℕ
  pub file_path : Bytes
  pub config_path : Bytes

abbrev pub config_zero : ClientConfig
config_zero = record {
  sin_family = 0;
  sin_port = 0;
  sin_addr = 0;
  file_path = [];
  config_path = [];
}

-- `AF_INET`
abbrev pub af_inet : ℕ
af_inet = 2

-- The local variables of Config
pub record Fields : Type 0 where
  pub family : Bytes
  pub ip : Bytes
  pub port : ℕ
  pub file_path : Bytes

abbrev pub no_fields : Fields
no_fields = record { family = []; ip = []; port = 0; file_path = [] }

-- `snprintf(buf, size, "%s", s)`
abbrev pub printed : (size : ℕ) → Bytes → Bytes
printed size s = take (size - 1) s

-- The value between the tags of a line, in `valueBuf`
abbrev value_of : (line tag : Bytes) → Option Bytes
value_of line tag = extract_xml_tag_value line tag 1024

is_port : Bytes → ℤ × ℕ → Bool
is_port text (number, end) =
    not (end == 0 || not (byte_at text end == 0) || is_nonpos number || ltb 65535 (pos_part number))

read_port : Strtol → Bytes → Fields → Option Fields
read_port strtol text f =
    if is_port text (strtol text) then some (record f { port = pos_part (strtol text).0 }) else none

-- The first of the four values that there is sets its field. `none`: the port is refused.
take_value : Strtol → Fields → (family ip port local_path : Option Bytes) → Option Fields
take_value strtol f (some v) ip port local_path = some (record f { family = printed 32 v })
take_value strtol f none (some v) port local_path = some (record f { ip = printed 64 v })
take_value strtol f none none (some v) local_path = read_port strtol v f
take_value strtol f none none none (some v) = some (record f { file_path = printed 1024 v })
take_value strtol f none none none none = some f

-- One turn of the loop
unfoldable pub read_line : Strtol → Bytes → Fields → Option Fields
unfolding take_value read_port is_port
read_line strtol line f =
    take_value strtol f (value_of line (codes "family")) (value_of line (codes "ip"))
      (value_of line (codes "port")) (value_of line (codes "localPath"))

unfoldable pub read_lines : Strtol → List Bytes → Fields → Option Fields
unfolding read_line
read_lines strtol [] f = some f
read_lines strtol (line ∷ lines) f = elim (read_line strtol line f) [
  | none ↦ none
  | some f' ↦ read_lines strtol lines f'
]

fill_addr : (port : ℕ) → (file_path config_path : Bytes) → Option ℕ → ClientConfig × ℤ
fill_addr port file_path config_path none =
    (record config_zero { sin_family = af_inet; sin_port = port }, minus_one)
fill_addr port file_path config_path (some addr) = (
  record {
    sin_family = af_inet;
    sin_port = port;
    sin_addr = addr;
    file_path = printed 1024 file_path;
    config_path = printed 1024 config_path;
  },
  pos 0,
)

finish : InetPton → (config_path : Bytes) → Option Fields → ClientConfig × ℤ
finish inet_pton config_path none = (config_zero, minus_one)
finish inet_pton config_path (some f) =
    if length f.ip == 0 || f.port == 0 || length f.file_path == 0
    then (config_zero, minus_one)
    else if not (length f.family == 0) && not (text_eq f.family (codes "AF_INET"))
    then (config_zero, minus_one)
    else fill_addr f.port f.file_path config_path (inet_pton f.ip)

-- Config, on what the caller's structure holds
unfoldable pub config :
    Strtol
    → InetPton
    → (config_path : Bytes) → Option (List Bytes)
    → ClientConfig
    → ClientConfig × ℤ
unfolding finish fill_addr
config strtol inet_pton config_path none c = (c, minus_one)
config strtol inet_pton config_path (some lines) c =
    finish inet_pton config_path (read_lines strtol lines no_fields)

-- LoadGlobalConfig and GetGlobalConfig, on what `g_clientConfig` holds
unfoldable load_global_config :
    Strtol
    → InetPton
    → (config_path : Bytes) → Option (List Bytes)
    → ClientConfig
    → ClientConfig × ℤ
load_global_config strtol inet_pton config_path file g_client_config =
    config strtol inet_pton config_path file g_client_config

unfoldable get_global_config : ClientConfig → ClientConfig
get_global_config g_client_config = g_client_config
