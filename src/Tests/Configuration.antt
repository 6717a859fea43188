-- ===== src/Tests/Configuration.antt =====
-- A configuration of three lines.
use nex_file.Base.{◌≡◌, refl, pos, Bytes, byte_at, codes, text_eq, List, [], ◌∷◌, length, some}
use nex_file.Client.Config.{
  is_space, skip_spaces, kept_len, trim, starts_with, strstr, extract_xml_tag_value,
}
use nex_file.Client.Config.Read.{
  Strtol, InetPton, ClientConfig, config_zero, read_lines, read_line, config,
}
use nex_file.Client.Config.Read.Bounds.{IsConfig, config-IsConfig}

-- Every text is read as the number 8080, and as the address 1.
abbrev strtol : Strtol
strtol text = (pos 8080, length text)

abbrev inet_pton : InetPton
inet_pton text = some 1

abbrev lines : List Bytes
lines = codes "<ip> ::1 </ip>" ∷ codes "<port>8080</port>" ∷ codes "<localPath>/d</localPath>" ∷ []

abbrev accepted : ClientConfig
accepted = record {
  sin_family = 2;
  sin_port = 8080;
  sin_addr = 1;
  file_path = codes "/d";
  config_path = codes "c.xml";
}

config_run : config strtol inet_pton (codes "c.xml") (some lines) config_zero ≡ (accepted, pos 0)
unfolding config read_lines read_line extract_xml_tag_value strstr starts_with trim skip_spaces
    kept_len is_space byte_at text_eq
config_run = refl

config-IsConfig_example : IsConfig inet_pton accepted
config-IsConfig_example =
    config-IsConfig strtol inet_pton (codes "c.xml") (some lines) config_zero accepted config_run
