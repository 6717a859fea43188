-- ===== src/Client/Config/Read/Bounds.antt =====
-- What a configuration that Config accepts satisfies.
use nex_file.Base.{
  ℕ, ◌-◌, ◌<◌, ◌≤◌, ◌≡◌, refl, ap, subst, ℤ, pos, pos_part, true, not, ◌||◌, ◌&&◌, Bool-cases, inl,
  inr, Bytes, codes, text_eq, List, [], ◌∷◌, length, length-take, ◌==◌, Option, none, some,
  Option-cases, arith,
}
use nex_file.Client.Config.Read.{
  Strtol, InetPton, ClientConfig, af_inet, Fields, no_fields, printed, is_port, read_port,
  take_value, read_line, read_lines, fill_addr, finish, config,
}

-- What the loop keeps.
record InBounds (f : Fields) : Type 0 where
  port : f.port ≤ 65535
  path : length f.file_path < 1024

InBounds-some : (f g : Fields) → InBounds f → some f ≡ some g → InBounds g
InBounds-some f g h e = let r : f ≡ g = cc e in rw (← r) h

is_port-small :
    (v : Bytes) (number : ℤ) (end : ℕ) → is_port v (number, end) ≡ true → pos_part number ≤ 65535
unfolding is_port
is_port-small v number end h = ground arith

read_port-InBounds :
    (strtol : Strtol) (v : Bytes) (f g : Fields)
    → InBounds f
    → read_port strtol v f ≡ some g
    → InBounds g
unfolding read_port
read_port-InBounds strtol v f g h e = elim (Bool-cases (is_port v (strtol v))) [
  | inl good ↦
      InBounds-some (record f { port = pos_part (strtol v).0 }) g
        (record { port = is_port-small v (strtol v).0 (strtol v).1 good; path = h.path })
        (rw good at e)
  | inr bad ↦ cc (rw bad at e)
]

length-printed : (size : ℕ) (s : Bytes) → 0 < size → length (printed size s) < size
length-printed size s h = omega (arith, length-take (size - 1) s)

take_value-InBounds :
    (strtol : Strtol) (f g : Fields) (family ip port local_path : Option Bytes)
    → InBounds f
    → take_value strtol f family ip port local_path ≡ some g
    → InBounds g
unfolding take_value
take_value-InBounds strtol f g (some v) _ _ _ h e =
    InBounds-some (record f { family = printed 32 v }) g (record { port = h.port; path = h.path }) e
take_value-InBounds strtol f g none (some v) _ _ h e =
    InBounds-some (record f { ip = printed 64 v }) g (record { port = h.port; path = h.path }) e
take_value-InBounds strtol f g none none (some v) _ h e = read_port-InBounds strtol v f g h e
take_value-InBounds strtol f g none none none (some v) h e =
    InBounds-some (record f { file_path = printed 1024 v }) g
      (record { port = h.port; path = length-printed 1024 v (omega arith) }) e
take_value-InBounds strtol f g none none none none h e = InBounds-some f g h e

read_line-InBounds :
    (strtol : Strtol) (line : Bytes) (f g : Fields)
    → InBounds f
    → read_line strtol line f ≡ some g
    → InBounds g
unfolding read_line
read_line-InBounds strtol line f g h e = take_value-InBounds strtol f g _ _ _ _ h e

read_lines-InBounds :
    (strtol : Strtol) (lines : List Bytes) (f g : Fields)
    → InBounds f
    → read_lines strtol lines f ≡ some g
    → InBounds g
unfolding read_lines
read_lines-InBounds strtol [] f g h e = InBounds-some f g h e
read_lines-InBounds strtol (line ∷ lines) f g h e = elim (Option-cases (read_line strtol line f)) [
  | inl bad ↦ cc (rw (read_lines, bad) at e)
  | inr (f', step) ↦
      read_lines-InBounds strtol lines f' g (read_line-InBounds strtol line f f' h step)
        (rw (read_lines, step) at e)
]

-- A port, an address that inet_pton reads, and a path that fits `filePath` with its NUL
pub record IsConfig (inet_pton : InetPton) (c : ClientConfig) : Type 0 where
  pub family : c.sin_family ≡ af_inet
  pub port : (0 < c.sin_port) × (c.sin_port ≤ 65535)
  pub address : (ip : Bytes) × (inet_pton ip ≡ some c.sin_addr) × (0 < length ip)
  pub path : (0 < length c.file_path) × (length c.file_path < 1024)

filled :
    (inet_pton : InetPton) (f : Fields) (config_path : Bytes) (c : ClientConfig) (addr : Option ℕ)
    → inet_pton f.ip ≡ addr
    → 0 < length f.ip
    → 0 < f.port
    → 0 < length f.file_path
    → InBounds f
    → fill_addr f.port f.file_path config_path addr ≡ (c, pos 0)
    → IsConfig inet_pton c
unfolding fill_addr
filled inet_pton f config_path c none a i p q h e = cc (ap (λ (x : ClientConfig × ℤ). x.1) e)
filled inet_pton f config_path c (some addr) a i p q h e =
    subst (IsConfig inet_pton) (ap (λ (x : ClientConfig × ℤ). x.0) e) (record {
      family = refl;
      port = (p, h.port);
      address = (f.ip, a, i);
      path = (
        omega (arith, length-take 1023 f.file_path, q, h.path),
        omega (arith, length-take 1023 f.file_path, q, h.path),
      );
    })

finish-IsConfig :
    (inet_pton : InetPton) (config_path : Bytes) (f : Fields) (c : ClientConfig)
    → InBounds f
    → finish inet_pton config_path (some f) ≡ (c, pos 0)
    → IsConfig inet_pton c
unfolding finish fill_addr
finish-IsConfig inet_pton config_path f c h e =
    elim (Bool-cases (length f.ip == 0 || f.port == 0 || length f.file_path == 0)) [
      | inl lacking ↦ cc (ap (λ (x : ClientConfig × ℤ). x.1) (rw lacking at e))
      | inr full ↦
          elim (Bool-cases
            (not (length f.family == 0) && not (text_eq f.family (codes "AF_INET")))) [
              | inl foreign ↦ cc (ap (λ (x : ClientConfig × ℤ). x.1) (rw (full, foreign) at e))
              | inr known ↦
                  filled inet_pton f config_path c (inet_pton f.ip) refl (ground (arith, full))
                    (ground (arith, full)) (ground (arith, full)) h (rw (full, known) at e)
            ]
    ]

-- If Config returns 0, whatever the file holds and the structure held, then the structure has the
-- family AF_INET, a port from 1 to 65535, the address of some text, and a path that is not empty
-- and fits its buffer.
pub config-IsConfig :
    (strtol : Strtol) (inet_pton : InetPton) (config_path : Bytes) (file : Option (List Bytes))
    (c c' : ClientConfig)
    → config strtol inet_pton config_path file c ≡ (c', pos 0)
    → IsConfig inet_pton c'
unfolding config
config-IsConfig strtol inet_pton config_path none c c' e = cc (ap (λ (x : ClientConfig × ℤ). x.1) e)
config-IsConfig strtol inet_pton config_path (some lines) c c' e =
    elim (Option-cases (read_lines strtol lines no_fields)) [
      | inl bad ↦ cc (ap (λ (x : ClientConfig × ℤ). x.1) (rw bad at e))
      | inr (f, read) ↦
          finish-IsConfig inet_pton config_path f c'
            (read_lines-InBounds strtol lines no_fields f
              (record { port = omega arith; path = omega arith }) read)
            (rw read at e)
    ]
