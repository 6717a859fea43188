-- ===== src/Client/CmdOpt/Cut.antt =====
-- cmdCut against an independent reading of the line: its maximal runs of non-blank bytes.
use nex_file.Base.{
  ℕ, ◌≡◌, refl, ap, ℤ, pos, minus_one, Bool, true, false, Bool-cases, inl, inr, Bytes, List, [],
  ◌∷◌, ◌++◌, length, overwrite, ltb, if◌then◌else◌, Option, none, some, arith,
}
use nex_file.Protocol.{PacketCmd, data_size, to_code, str_to_cmdcode}
use nex_file.Client.CmdOpt.{
  is_blank, token_end, strtok, cleared, cut, cut_command, cut_rest, cut_argument,
}

-- No word goes on into these bytes.
abbrev pub ends_word : Bytes → Bool
ends_word [] = true
ends_word (d ∷ _) = is_blank d

-- A byte at the front of the first word.
abbrev pub prepend : ℕ → List Bytes → List Bytes
prepend c [] = (c ∷ []) ∷ []
prepend c (w ∷ ws) = (c ∷ w) ∷ ws

-- The words of a line.
unfoldable pub words : Bytes → List Bytes
words [] = []
words (c ∷ cs) =
    let ws = words cs in
    if is_blank c then ws else if ends_word cs then (c ∷ []) ∷ ws else prepend c ws

words-token_end :
    (c : ℕ) (cs : Bytes)
    → is_blank c ≡ false
    → words (c ∷ cs) ≡ (c ∷ (token_end cs).0) ∷ words (token_end cs).1
unfolding words token_end
words-token_end c [] h = rw h
words-token_end c (d ∷ cs) h = elim (Bool-cases (is_blank d)) [
  | inl b ↦ rw (h, b)
  | inr b ↦ rw (h, b) (ap (prepend c) (rw b at (words-token_end d cs b)))
]

words_blank : (c : ℕ) (cs : Bytes) → is_blank c ≡ true → words (c ∷ cs) ≡ words cs
unfolding words
words_blank c cs h = rw h

-- What `strtok_r` splits off is the first word, and what is left holds the others.
abbrev pub Splits : List Bytes → Option (Bytes × Bytes) → Type 0
Splits ws none = ws ≡ []
Splits ws (some (t, rest)) = ws ≡ t ∷ words rest

pub strtok-words : (line : Bytes) → Splits (words line) (strtok line)
unfolding strtok
strtok-words [] = unfold words in refl
strtok-words (c ∷ cs) = elim (Bool-cases (is_blank c)) [
  | inl b ↦ rw (b, words_blank c cs b) (strtok-words cs)
  | inr b ↦ rw b (words-token_end c cs b)
]

-- What the words of the line make of the packet, and the result.
unfoldable pub cut_words : PacketCmd → List Bytes → PacketCmd × ℤ
cut_words p [] = (cleared p, minus_one)
cut_words p (t ∷ []) = (record (cleared p) { cmd_code = to_code (str_to_cmdcode (some t)) }, pos 0)
cut_words p (t ∷ a ∷ []) =
    if ltb (length a) data_size
    then (
      record p {
        cmd_code = to_code (str_to_cmdcode (some t));
        arg_flag = 1;
        len = pos (length a);
        payload = overwrite (a ++ 0 ∷ []) (overwrite (0 ∷ []) p.payload);
      },
      pos 0,
    )
    else (cleared p, minus_one)
cut_words p (t ∷ a ∷ _ ∷ _) =
    if ltb (length a) data_size
    then (
      cleared (record p { payload = overwrite (a ++ 0 ∷ []) (overwrite (0 ∷ []) p.payload) }),
      minus_one,
    )
    else (cleared p, minus_one)

cut-by_words :
    (p : PacketCmd) (o : Option (Bytes × Bytes)) (ws : List Bytes)
    → Splits ws o
    → cut_command (cleared p) o ≡ cut_words p ws
unfolding cut_command cut_rest cut_argument cut_words
cut-by_words p none ws h = rw h
cut-by_words p (some (t, rest)) ws h = rw h (go (strtok rest) (words rest) (strtok-words rest))
  where
    last :
        (a r : Bytes) (o : Option (Bytes × Bytes)) (us : List Bytes)
        → Splits us o
        → cut_argument (record (cleared p) { cmd_code = to_code (str_to_cmdcode (some t)) }) a o
          ≡ cut_words p (t ∷ a ∷ us)
    last a r none us e = rw e (ground arith)
    last a r (some (b, s)) us e = rw e (ground arith)

    go :
        (o : Option (Bytes × Bytes)) (us : List Bytes)
        → Splits us o
        → cut_rest (record (cleared p) { cmd_code = to_code (str_to_cmdcode (some t)) }) o
          ≡ cut_words p (t ∷ us)
    go none us e = rw e
    go (some (a, r)) us e = rw e (last a r (strtok r) (words r) (strtok-words r))

-- cmdCut is determined by the words of the line, on every branch: no word, one word, a command
-- with an argument that fits or does not fit `data_`, and more than two words.
pub cut-words : (line : Bytes) (p : PacketCmd) → cut line p ≡ cut_words p (words line)
unfolding cut
cut-words line p = cut-by_words p (strtok line) (words line) (strtok-words line)
