-- ===== src/Server/Config.antt =====
-- NexFile/server/configParser.c. `sscanf` and `inet_pton` are arguments.
pub mod Null
pub mod Parsed
use nex_file.Base.{
  ℕ, ◌/◌, ◌%◌, ℤ, pos, is_nonpos, pos_part, Bool, true, false, not, ◌||◌, Bytes, codes, c_str, List,
  [], ◌∷◌, take, ltb, ◌==◌, if◌then◌else◌, Option, none, some,
}
use nex_file.Base.Io.{Io, Run, ok, blocked, undefined, exited, exit, pure, ◌>>=◌}
use nex_file.Protocol.Wire.{pattern_of}

-- `sscanf` on a line with the formats "ip: %63s", "port: %d" and "threadNum: %d": the value, if it
-- returns 1.
pub record Scan : Type 0 where
  pub ip : Bytes → Option Bytes
  pub port : Bytes → Option ℤ
  pub thread_num : Bytes → Option ℤ

-- `inet_pton(AF_INET, ip, …)`: the bits of the address if the text is one
abbrev pub InetPton : Type 0
InetPton = Bytes → Option ℕ

-- How `open` and `read` end: the bytes are those that `read` could deliver.
pub data Opened : Type 0 where
  not_opened : Opened
  not_read : Opened
  opened : Bytes → Opened

-- `Config_t`; `config_path` is null or an allocated string.
pub record ServerConfig : Type 0 where
  pub ipv4 : ℕ
  pub port : ℤ
  pub thread_num : ℤ
  pub config_path : Option Bytes

-- The delimiters "\r\n"
unfoldable pub is_line_end : ℕ → Bool
is_line_end c = c == b'\r' || c == b'\n'

-- Whether a token ends in front of these bytes.
unfoldable pub line_ends : Bytes → Bool
line_ends [] = true
line_ends (c ∷ cs) = is_line_end c

abbrev prefixed : ℕ → List Bytes → List Bytes
prefixed c [] = (c ∷ []) ∷ []
prefixed c (l ∷ ls) = (c ∷ l) ∷ ls

-- What strtok_r returns, call by call, up to NULL
unfoldable pub config_lines : Bytes → List Bytes
config_lines [] = []
config_lines (c ∷ cs) =
    let rest = config_lines cs in
    if is_line_end c then rest else if line_ends cs then (c ∷ []) ∷ rest else prefixed c rest

-- The local variables of parseConfig
pub record Values : Type 0 where
  pub ip : Bytes
  pub port : ℤ
  pub thread_num : ℤ

abbrev pub no_values : Values
no_values = record { ip = []; port = pos 0; thread_num = pos 0 }

-- The first of the three that matches sets its variable.
abbrev scanned : Values → Option Bytes → (port thread_num : Option ℤ) → Values
scanned v (some ip) port thread_num = record v { ip = ip }
scanned v none (some port) thread_num = record v { port = port }
scanned v none none (some thread_num) = record v { thread_num = thread_num }
scanned v none none none = v

-- The loop over the lines
unfoldable pub scan_lines : Scan → List Bytes → Values → Values
scan_lines scan [] v = v
scan_lines scan (line ∷ lines) v =
    scan_lines scan lines (scanned v (scan.ip line) (scan.port line) (scan.thread_num line))

-- The structure is filled; `duplicated` says whether `strdup` succeeds.
fill_config : (duplicated : Bool) → (config_path : Bytes) → ℕ → Values → Io ServerConfig ℤ
fill_config duplicated config_path ipv4 v c =
    if duplicated
    then ok (pos 0) (record {
      ipv4 = ipv4;
      port = v.port;
      thread_num = v.thread_num;
      config_path = some config_path;
    })
    else exited

-- The tests of the values
check_values : (duplicated : Bool) → (config_path : Bytes) → Values → Option ℕ → Io ServerConfig ℤ
check_values duplicated config_path v none = exit
check_values duplicated config_path v (some ipv4) =
    if is_nonpos v.port || ltb 65535 (pos_part v.port)
    then exit
    else if is_nonpos v.thread_num
    then exit
    else fill_config duplicated config_path ipv4 v

-- parseConfig, on what the caller's structure holds
unfoldable pub parse_config :
    Scan → InetPton → Opened → (duplicated : Bool) → (config_path : Bytes) → Io ServerConfig ℤ
unfolding check_values fill_config
parse_config scan inet_pton not_opened duplicated config_path = exit
parse_config scan inet_pton not_read duplicated config_path = exit
parse_config scan inet_pton (opened bytes) duplicated config_path =
    let v = scan_lines scan (config_lines (c_str (take 1023 bytes))) no_values in
    check_values duplicated config_path v (inet_pton v.ip)

-- `globalConfig` and `configInitialized`
pub record Globals : Type 0 where
  pub global_config : ServerConfig
  pub initialized : Bool

abbrev with_global : {A B : Type 0} → Globals → Run ServerConfig A → B → Run Globals B
with_global g (ok a c) b = ok b (record g { global_config = c })
with_global g blocked b = blocked
with_global g undefined b = undefined
with_global g exited b = exited

-- getConfig: the structure behind the pointer that it returns
unfoldable pub get_config :
    Scan → InetPton → Opened → (duplicated : Bool) → Io Globals (Option ServerConfig)
get_config scan inet_pton file duplicated g =
    if not g.initialized
    then with_global g
        (parse_config scan inet_pton file duplicated (codes "server.conf") g.global_config) none
    else ok (some g.global_config) g

-- `struct sockaddr_in`; the port as its two bytes in memory
pub record SockAddr : Type 0 where
  pub sin_family : ℕ
  pub sin_port : Bytes
  pub s_addr : ℕ

-- Config, with `AF_INET` for 2. `htons` puts the high byte first.
unfoldable pub server_address : ServerConfig → SockAddr
server_address c = record {
  sin_family = 2;
  sin_port = pattern_of c.port / 256 % 256 ∷ pattern_of c.port % 256 ∷ [];
  s_addr = c.ipv4;
}
