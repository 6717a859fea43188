-- ===== src/Server/Workers/Race.antt =====
-- A directory of one client while another logs in.
use nex_file.Base.{
  ℕ, suc, ◌+◌, ◌<◌, ◌≤◌, ◌≡◌, ◌≢◌, refl, sym, ◌∙◌, ap, ap₂, false, Bytes, c_str, IsStr, List, [],
  ◌∷◌, ◌++◌, append-nil, length, ne→==, some, arith,
}
use nex_file.Base.Io.{ok}
use nex_file.Protocol.{PacketCmd}
use nex_file.Protocol.Packet.{packet_bytes, packet_size}
use nex_file.Protocol.Wire.{train_bytes}
use nex_file.Net.{SendAct, accept}
use nex_file.Net.Schedule.{Delivers, Accepts}
use nex_file.Server.Files.{Os}
use nex_file.Server.Auth.{Shadow, result_ok, max_path_len, enter_home, user_authen}
use nex_file.Server.Auth.Reply.{user_authen-welcomes}
use nex_file.Server.Session.{Memory, serve_ready}
use nex_file.Server.Session.Stream.{IsMkdir, message_short}
use nex_file.Server.Session.Served.{serve_ready-mkdir}
use nex_file.Server.Workers.{World, view, with_worker, on_worker}

module _ {F : Type 0} (os : Os F) (shadow : Shadow) where
  -- A turn of one worker with a packet for mkdir, and what it leaves.
  served :
      (fd : ℕ) (m : Memory) (p : PacketCmd) (w : World F)
      → IsMkdir w.client_path p
      → (w.conns fd).incoming ≡ packet_bytes p
      → Delivers packet_size (w.conns fd).recvs
      → Accepts 46 (w.conns fd).sends
      → (w' : World F) × (on_worker fd (serve_ready os shadow m) w ≡ ok false w')
        × (w'.client_path ≡ w.client_path)
        × (w'.files ≡ (os.mkdir (w.client_path ++ b'/' ∷ c_str p.payload) w.files).1)
        × ((gd : ℕ) → gd ≢ fd → w'.conns gd ≡ w.conns gd)
  served fd m p w h e d a =
      let made = os.mkdir (w.client_path ++ b'/' ∷ c_str p.payload) w.files in
      let short = message_short made.0 in
      let (recvs, sends, d', a', turn) =
        serve_ready-mkdir os shadow m p [] 0 0 made.0 made.1 (view fd w) h.wire h.code h.ended
          h.fits refl (e ∙ sym (append-nil (packet_bytes p)))
          (record { clean = d.clean; enough = omega (arith, d.enough) })
          (record { clean = a.clean; enough = omega (arith, a.enough, short) }) in
      (_, ap (with_worker fd w) turn, refl, refl, λ gd apart. rw (ne→== gd fd apart) refl)

  -- A round of UserAuthen of one worker that succeeds, and what it leaves.
  pub welcomed :
      (gd i : ℕ) (u h : Bytes) (acts : List SendAct) (w : World F)
      → shadow u ≡ some h
      → length u < 64
      → length h < 128
      → IsStr u
      → IsStr h
      → length w.client_path + 1 + length u < max_path_len
      → (w.conns gd).incoming ≡ train_bytes u ++ train_bytes h
      → Delivers (length h + 4 + length u + 4) (w.conns gd).recvs
      → (w.conns gd).sends ≡ accept i ∷ acts
      → 18 ≤ suc i
      → (w' : World F) × (on_worker gd (user_authen shadow) w ≡ ok result_ok w')
        × (w'.client_path ≡ enter_home w.client_path u)
        × (w'.files ≡ w.files)
        × ((fd : ℕ) → fd ≢ gd → w'.conns fd ≡ w.conns fd)
  welcomed gd i u h acts w known su sh iu ih fits came d one room =
      let (recvs, left, round) =
        user_authen-welcomes shadow 0 i u h [] acts (view gd w) known su sh iu ih fits
          (came ∙ ap (λ x. train_bytes u ++ x) (sym (append-nil (train_bytes h))))
          (record { clean = d.clean; enough = omega (arith, d.enough) }) one room in
      (_, ap (with_worker gd w) round, refl, refl, λ fd apart. rw (ne→== fd gd apart) refl)

  -- One client's packet for mkdir and another's right login have arrived, at workers of different
  -- descriptors; the name fits in either case, and the schedules have no error but EINTR and enough
  -- calls. If the packet is handled first, the directory is made in the shared path of that time;
  -- if the login is, it is made in the home of the user who logged in. Both calls succeed in either
  -- order, and the path behind them is the same.
  pub mkdir_races_login :
      (fd gd i : ℕ) (m : Memory) (p : PacketCmd) (u h : Bytes) (acts : List SendAct) (w : World F)
      → fd ≢ gd
      → IsMkdir w.client_path p
      → IsMkdir (enter_home w.client_path u) p
      → (w.conns fd).incoming ≡ packet_bytes p
      → Delivers packet_size (w.conns fd).recvs
      → Accepts 46 (w.conns fd).sends
      → shadow u ≡ some h
      → length u < 64
      → length h < 128
      → IsStr u
      → IsStr h
      → length w.client_path + 1 + length u < max_path_len
      → (w.conns gd).incoming ≡ train_bytes u ++ train_bytes h
      → Delivers (length h + 4 + length u + 4) (w.conns gd).recvs
      → (w.conns gd).sends ≡ accept i ∷ acts
      → 18 ≤ suc i
      → ((w₁ w₂ : World F) × (on_worker fd (serve_ready os shadow m) w ≡ ok false w₁)
          × (on_worker gd (user_authen shadow) w₁ ≡ ok result_ok w₂)
          × (w₂.files ≡ (os.mkdir (w.client_path ++ b'/' ∷ c_str p.payload) w.files).1)
          × (w₂.client_path ≡ enter_home w.client_path u))
        × ((w₁ w₂ : World F) × (on_worker gd (user_authen shadow) w ≡ ok result_ok w₁)
            × (on_worker fd (serve_ready os shadow m) w₁ ≡ ok false w₂)
            × (w₂.files
                ≡ (os.mkdir (enter_home w.client_path u ++ b'/' ∷ c_str p.payload) w.files).1)
            × (w₂.client_path ≡ enter_home w.client_path u))
  mkdir_races_login fd gd i m p u h acts w apart here there e d a known su sh iu ih fits came dl one
        room =
      let (w₁, s₁, p₁, f₁, c₁) = served fd m p w here e d a in
      let same = c₁ gd (λ q. apart (sym q)) in
      let (w₂, s₂, p₂, f₂, c₂) =
        welcomed gd i u h acts w₁ known su sh iu ih (rw p₁ fits) (rw same came) (rw same dl)
          (rw same one) room in
      let (v₁, t₁, q₁, g₁, k₁) = welcomed gd i u h acts w known su sh iu ih fits came dl one room in
      let kept = k₁ fd apart in
      let (v₂, t₂, q₂, g₂, k₂) =
        served fd m p v₁ (rw q₁ there) (rw kept e) (rw kept d) (rw kept a) in
      (
        (w₁, w₂, s₁, s₂, f₂ ∙ f₁, p₂ ∙ ap (λ x. enter_home x u) p₁),
        (
          v₁,
          v₂,
          t₁,
          t₂,
          g₂ ∙ ap₂ (λ x fs. (os.mkdir (x ++ b'/' ∷ c_str p.payload) fs).1) q₁ g₁,
          q₂ ∙ q₁,
        ),
      )
