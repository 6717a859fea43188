-- ===== src/Server/Transfer/Prompt.antt =====
-- sendn when one call of `send` takes all.
use nex_file.Base.{
  ℕ, suc, ◌+◌, ◌<◌, ◌≤◌, ◌^◌, ◌≡◌, refl, ◌∙◌, ap, ap₂, pos, Bytes, List, [], ◌∷◌, ◌++◌, length,
  take_all, drop_all, arith,
}
use nex_file.Base.Io.{ok}
use nex_file.Protocol.Wire.{int_of_small}
use nex_file.Net.{SendAct, accept, Conn}
use nex_file.Server.Transfer.{to_int, sendn, sendn_loop}

nothing_left :
    (acts : List SendAct) (sent : ℕ) (c : Conn)
    → sendn_loop acts sent [] c ≡ ok (to_int sent) (record c { sends = acts })
unfolding sendn_loop
nothing_left acts sent c = refl

loop_prompt :
    (k : ℕ) (acts : List SendAct) (bs : Bytes) (c : Conn)
    → 0 < length bs
    → length bs ≤ suc k
    → sendn_loop (accept k ∷ acts) 0 bs c
      ≡ ok (to_int (length bs)) (record c { outgoing = c.outgoing ++ bs; sends = acts })
unfolding sendn_loop
loop_prompt k acts [] c p room = absurd (omega arith)
loop_prompt k acts (b ∷ bs) c p room =
    ap₂
      (λ done rest.
        sendn_loop acts (0 + length done) rest (record c { outgoing = c.outgoing ++ done }))
      (take_all (suc k) (b ∷ bs) room) (drop_all (suc k) (b ∷ bs) room)
    ∙ nothing_left acts (0 + length (b ∷ bs)) (record c { outgoing = c.outgoing ++ b ∷ bs })
    ∙ ap (λ n. ok (to_int n) (record c { outgoing = c.outgoing ++ b ∷ bs; sends = acts }))
        (omega arith)

-- If the next call of send takes all the bytes, fewer than 2 ^ 31, sendn returns their number.
pub sendn-prompt :
    (k : ℕ) (acts : List SendAct) (bs : Bytes) (c : Conn)
    → 0 < length bs
    → length bs < 2 ^ 31
    → length bs ≤ suc k
    → c.sends ≡ accept k ∷ acts
    → sendn bs c ≡ ok (pos (length bs)) (record c { outgoing = c.outgoing ++ bs; sends = acts })
unfolding sendn
sendn-prompt k acts bs c p small room e =
    ap (λ schedule. sendn_loop schedule 0 bs c) e
    ∙ loop_prompt k acts bs c p room
    ∙ ap (λ r. ok r (record c { outgoing = c.outgoing ++ bs; sends = acts }))
        (int_of_small (length bs) small)
