-- ===== src/Client/CmdOpt/Check.antt =====
-- What cmdCheck accepts, and the packet that it then leaves.
use nex_file.Base.{
  ◌≡◌, ◌≢◌, ◌<◌, ◌↔◌, refl, ℤ, pos, eq_ℤ, not, Bool-cases, inl, inr, Bytes, List, [], ◌∷◌, length,
  overwrite, ltb, ltb→lt, c_str, c_str-append, if◌then◌else◌, some, arith,
}
use nex_file.Protocol.{
  PacketCmd, data_size, to_code, CommandCode, req_invalid, req_pwd, str_to_cmdcode,
}
use nex_file.Client.CmdOpt.{cmd_veri, check}
use nex_file.Client.CmdOpt.Cut.{words, cut_words, cut-words}

-- The command of a word.
abbrev pub command : Bytes → CommandCode
command t = str_to_cmdcode (some t)

-- The lines that should pass, by their words: a known command with at most one argument, which
-- fits `data_` and does not follow `pwd`.
abbrev pub Accepts : List Bytes → Type 0
Accepts [] = ⊥
Accepts (t ∷ []) = command t ≢ req_invalid
Accepts (t ∷ a ∷ []) = (command t ≢ req_invalid) × (command t ≢ req_pwd) × (length a < data_size)
Accepts (t ∷ a ∷ _ ∷ _) = ⊥

-- cmdCheck on the words: cut, then verify.
check_words : PacketCmd → List Bytes → PacketCmd × ℤ
check_words p ws =
    let (q, ret) = cut_words p ws in if not (eq_ℤ ret (pos 0)) then (q, ret) else (q, cmd_veri q)

check-words : (line : Bytes) (p : PacketCmd) → check line p ≡ check_words p (words line)
unfolding check check_words
check-words line p = rw (cut-words line p)

c_str_empty : (buf : Bytes) → c_str (overwrite (0 ∷ []) buf) ≡ []
c_str_empty buf = c_str-append [] _ tt

-- cmdVeri on a packet without an argument, and on one with an argument.
veri_plain :
    (q : PacketCmd) (c : CommandCode)
    → q.cmd_code ≡ to_code c
    → q.arg_flag ≡ 0
    → q.len ≡ pos 0
    → c_str q.payload ≡ []
    → (cmd_veri q ≡ pos 0) ↔ (c ≢ req_invalid)
unfolding cmd_veri
veri_plain q req_invalid e f l s = (λ h. ground arith, λ h. absurd (h refl))
veri_plain q _ e f l s = (λ h. ground arith, λ h. ground arith)

veri_argument :
    (q : PacketCmd) (c : CommandCode)
    → q.cmd_code ≡ to_code c
    → q.arg_flag ≡ 1
    → (cmd_veri q ≡ pos 0) ↔ ((c ≢ req_invalid) × (c ≢ req_pwd))
unfolding cmd_veri
veri_argument q req_invalid e f = (λ h. ground arith, λ h. absurd (h.0 refl))
veri_argument q req_pwd e f = (λ h. ground arith, λ h. absurd (h.1 refl))
veri_argument q _ e f = (λ h. (ground arith, ground arith), λ h. ground arith)

with_bound : {P A B C : Type 0} → P ↔ (A × B) → C → P ↔ (A × B × C)
with_bound e c = (λ h. ((e.0 h).0, (e.0 h).1, c), λ h. e.1 (h.0, h.1))

-- cmdCheck returns 0 on these words exactly when they should pass.
check_words_iff : (p : PacketCmd) (ws : List Bytes) → ((check_words p ws).1 ≡ pos 0) ↔ Accepts ws
unfolding check_words cut_words
check_words_iff p [] = (λ h. cc, λ h. absurd h)
check_words_iff p (t ∷ []) = veri_plain _ (command t) refl refl refl (c_str_empty p.payload)
check_words_iff p (t ∷ a ∷ []) = elim (Bool-cases (ltb (length a) data_size)) [
  | inl short ↦
      rw short
        (with_bound (veri_argument _ (command t) refl refl) (ltb→lt (length a) data_size short))
  | inr long ↦ rw long (λ h. cc, λ h. absurd (ground arith))
]
check_words_iff p (t ∷ a ∷ b ∷ ws) = elim (Bool-cases (ltb (length a) data_size)) [
  | inl short ↦ rw short (λ h. cc, λ h. absurd h)
  | inr long ↦ rw long (λ h. cc, λ h. absurd h)
]

-- cmdCheck returns 0 exactly on the lines whose words are one known command, or a known command
-- other than `pwd` and one argument shorter than `data_`. So no command needs an argument.
pub check_iff : (line : Bytes) (p : PacketCmd) → ((check line p).1 ≡ pos 0) ↔ Accepts (words line)
check_iff line p = rw (check-words line p) (check_words_iff p (words line))
