-- ===== src/Protocol/Names.antt =====
-- The names that the user types and the codes that they stand for.
use nex_file.Base.{
  ◌≡◌, ◌≢◌, ◌↔◌, ◌⊎◌, inl, inr, refl, sym, ◌∙◌, Bytes, codes, text_eq, text_eq_iff, Option, none,
  some, arith,
}
use nex_file.Protocol.{
  CommandCode, req_invalid, req_cd, req_ls, req_pwd, req_rm, req_put, req_get, req_mkdir,
  str_to_cmdcode,
}

-- The name of a command; `REQ_INVALID` has none.
abbrev pub name_of : CommandCode → Option Bytes
name_of req_invalid = none
name_of req_cd = some (codes "cd")
name_of req_ls = some (codes "ls")
name_of req_pwd = some (codes "pwd")
name_of req_rm = some (codes "rm")
name_of req_put = some (codes "put")
name_of req_get = some (codes "get")
name_of req_mkdir = some (codes "mkdir")

read_name : (c : CommandCode) → c ≢ req_invalid → str_to_cmdcode (name_of c) ≡ c
unfolding str_to_cmdcode text_eq
read_name req_invalid h = absurd (h refl)
read_name req_cd h = refl
read_name req_ls h = refl
read_name req_pwd h = refl
read_name req_rm h = refl
read_name req_put h = refl
read_name req_get h = refl
read_name req_mkdir h = refl

-- A code that is read is the code of the text.
named :
    (s : Bytes)
    → (name_of (str_to_cmdcode (some s)) ≡ some s) ⊎ (str_to_cmdcode (some s) ≡ req_invalid)
unfolding str_to_cmdcode
named s = ground (
  arith,
  text_eq_iff s (codes "cd"),
  text_eq_iff s (codes "ls"),
  text_eq_iff s (codes "mkdir"),
  text_eq_iff s (codes "rm"),
  text_eq_iff s (codes "put"),
  text_eq_iff s (codes "get"),
  text_eq_iff s (codes "pwd"),
)

-- A text is read as a command exactly when it is the name of that command.
pub str_to_cmdcode-name_of :
    (c : CommandCode) (s : Bytes)
    → c ≢ req_invalid
    → (str_to_cmdcode (some s) ≡ c) ↔ (name_of c ≡ some s)
str_to_cmdcode-name_of c s h = (
  λ e. elim (named s) [ inl n ↦ rw e at n | inr bad ↦ absurd (h (sym e ∙ bad)) ],
  λ e. rw e at (read_name c h),
)
