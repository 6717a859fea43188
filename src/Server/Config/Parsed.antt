-- ===== src/Server/Config/Parsed.antt =====
-- What a configuration that parseConfig accepts satisfies.
use nex_file.Base.{
  ℕ, ◌+◌, ◌*◌, ◌<◌, ◌≤◌, ◌≡◌, refl, ℤ, pos, negsuc, is_nonpos, pos_part, Bool, false, Bool-cases,
  inl, inr, Bytes, c_str, ◌∷◌, take, ltb, Option, none, some, arith,
}
use nex_file.Base.Io.{ok}
use nex_file.Protocol.Wire.{pattern_of}
use nex_file.Server.Config.{
  Scan, InetPton, Opened, not_opened, not_read, opened, ServerConfig, Values, no_values,
  config_lines, scan_lines, fill_config, check_values, parse_config, server_address,
}

-- The number that two bytes are, the high one first.
unfoldable pub ntohs : Bytes → ℕ
ntohs (hi ∷ lo ∷ rest) = hi * 256 + lo
ntohs _ = 0

pub record IsParsed (inet_pton : InetPton) (config_path : Bytes) (c : ServerConfig) : Type 0 where
  pub ip : Bytes
  pub address : inet_pton ip ≡ some c.ipv4
  pub positive : 0 < pos_part c.port
  pub in_range : pos_part c.port ≤ 65535
  pub threads : 0 < pos_part c.thread_num
  pub path : c.config_path ≡ some config_path
  pub sent_port : ntohs (server_address c).sin_port ≡ pos_part c.port

port_bytes :
    (c : ServerConfig) (n : ℕ) → c.port ≡ pos n → n ≤ 65535 → ntohs (server_address c).sin_port ≡ n
unfolding ntohs server_address pattern_of
port_bytes c n e h = rw e (omega arith)

positive : (z : ℤ) → is_nonpos z ≡ false → 0 < pos_part z
positive (pos n) h = ground arith
positive (negsuc n) h = cc h

natural : (z : ℤ) → is_nonpos z ≡ false → z ≡ pos (pos_part z)
natural (pos n) h = refl
natural (negsuc n) h = cc h

-- The structure that is fill_config_lem with values in range
of_values :
    (inet_pton : InetPton) (path : Bytes) (v : Values) (ipv4 : ℕ)
    → inet_pton v.ip ≡ some ipv4
    → is_nonpos v.port ≡ false
    → pos_part v.port ≤ 65535
    → is_nonpos v.thread_num ≡ false
    → IsParsed inet_pton path
        (record { ipv4 = ipv4; port = v.port; thread_num = v.thread_num; config_path = some path })
of_values inet_pton path v ipv4 known port small threads = record {
  ip = v.ip;
  address = known;
  positive = positive v.port port;
  in_range = small;
  threads = positive v.thread_num threads;
  path = refl;
  sent_port =
      port_bytes
        (record { ipv4 = ipv4; port = v.port; thread_num = v.thread_num; config_path = some path })
        (pos_part v.port) (natural v.port port) small;
}

module _ (inet_pton : InetPton) (duplicated : Bool) (path : Bytes) where
  fill_config_lem :
      (v : Values) (ipv4 : ℕ) (r : ℤ) (c c' : ServerConfig)
      → IsParsed inet_pton path (record {
        ipv4 = ipv4;
        port = v.port;
        thread_num = v.thread_num;
        config_path = some path;
      })
      → fill_config duplicated path ipv4 v c ≡ ok r c'
      → (r ≡ pos 0) × IsParsed inet_pton path c'
  unfolding fill_config
  fill_config_lem v ipv4 r c c' h e = elim (Bool-cases duplicated) [
    | inl done ↦
        let e' = rw done at e in
        let q : record {
          ipv4 = ipv4;
          port = v.port;
          thread_num = v.thread_num;
          config_path = some path;
        }
            ≡ c' =
          cc e' in
        (cc e', rw (← q) h)
    | inr failed ↦ cc (rw failed at e)
  ]

  check_values_lem :
      (v : Values) (o : Option ℕ) (r : ℤ) (c c' : ServerConfig)
      → inet_pton v.ip ≡ o
      → check_values duplicated path v o c ≡ ok r c'
      → (r ≡ pos 0) × IsParsed inet_pton path c'
  unfolding check_values
  check_values_lem v none r c c' known e = cc e
  check_values_lem v (some ipv4) r c c' known e = elim (Bool-cases (is_nonpos v.port)) [
    | inl low ↦ cc (rw low at e)
    | inr above ↦ elim (Bool-cases (ltb 65535 (pos_part v.port))) [
      | inl high ↦ cc (rw (above, high) at e)
      | inr small ↦ elim (Bool-cases (is_nonpos v.thread_num)) [
        | inl no_thread ↦ cc (rw (above, small, no_thread) at e)
        | inr threads ↦
            fill_config_lem v ipv4 r c c'
              (of_values inet_pton path v ipv4 known above (ground (arith, small)) threads)
              (rw (above, small, threads) at e)
      ]
    ]
  ]

  -- If parseConfig returns, whatever the file holds and the structure held, then it returns 0, and the
  -- structure has the address of some text, at least one thread, the path, and a port from 1 to 65535,
  -- which is the one that Config puts into the socket address.
  pub parse_config-IsParsed :
      (scan : Scan) (file : Opened) (r : ℤ) (c c' : ServerConfig)
      → parse_config scan inet_pton file duplicated path c ≡ ok r c'
      → (r ≡ pos 0) × IsParsed inet_pton path c'
  unfolding parse_config
  parse_config-IsParsed scan not_opened r c c' e = cc e
  parse_config-IsParsed scan not_read r c c' e = cc e
  parse_config-IsParsed scan (opened bytes) r c c' e =
      let v = scan_lines scan (config_lines (c_str (take 1023 bytes))) no_values in
      check_values_lem v (inet_pton v.ip) r c c' refl e
