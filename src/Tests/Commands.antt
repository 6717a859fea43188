-- ===== src/Tests/Commands.antt =====
-- protocol.h and cmdOpt.c on typed lines.
use nex_file.Base.{◌≡◌, ◌≢◌, ◌↔◌, refl, pos, Bytes, codes, text_eq, [], ◌∷◌, ◌++◌, replicate, arith}
use nex_file.Protocol.{PacketCmd, data_size, req_get, str_to_cmdcode}
use nex_file.Client.CmdOpt.{is_blank, cut, check, strtok, token_end, cmd_veri}
use nex_file.Client.CmdOpt.Cut.{words}
use nex_file.Client.CmdOpt.Check.{Accepts, check_iff}
use nex_file.Client.CmdOpt.Packet.{Carries, check_typed}

-- A packet on the stack, with whatever lay there.
abbrev packet : PacketCmd
packet = record { cmd_code = 77; arg_flag = 9; len = pos 5; payload = replicate data_size 65 }

abbrev get_line : Bytes
get_line = codes "get notes.txt"

-- `rm` with no argument is accepted.
rm_alone : (check (codes " rm \t") packet).1 ≡ pos 0
unfolding check cut strtok token_end is_blank str_to_cmdcode text_eq cmd_veri
rm_alone = refl

check_iff_example : ((check get_line packet).1 ≡ pos 0) ↔ Accepts (words get_line)
check_iff_example = check_iff get_line packet

notes_word : (codes "notes.txt") ≢ []
notes_word e = cc

check_typed_example :
    ((check (codes "get" ++ b' ' ∷ codes "notes.txt") packet).1 ≡ pos 0)
    × Carries req_get (codes "notes.txt") (check (codes "get" ++ b' ' ∷ codes "notes.txt") packet).0
unfolding is_blank
check_typed_example =
    check_typed req_get (codes "get") (codes "notes.txt") packet (λ e. cc) (λ e. cc) refl
      (notes_word, (refl, (refl, (refl, (refl, (refl, (refl, (refl, (refl, (refl, tt))))))))))
      (omega arith) (omega arith)
