-- ===== src/Server/Config/Null.antt =====
-- getConfig never hands the configuration out.
use nex_file.Base.{
  ℤ, ◌≡◌, sym, ◌∙◌, ap, Bool, true, false, not, All, List, [], ◌∷◌, if◌then◌else◌, Option, none,
  some,
}
use nex_file.Base.Io.{Io, Run, ok, blocked, undefined, exited, pure, and_then-eq-ok, ◌>>=◌}
use nex_file.Server.Config.{
  Scan, InetPton, Opened, ServerConfig, Globals, with_global, parse_config, get_config,
}

-- One call of getConfig after another, each with its own end of `open`, `read` and `strdup`
abbrev pub get_configs :
    Scan → InetPton → List (Opened × Bool) → Io Globals (List (Option ServerConfig))
get_configs scan inet_pton [] = pure []
get_configs scan inet_pton ((file, duplicated) ∷ calls) = do
  c ← get_config scan inet_pton file duplicated
  cs ← get_configs scan inet_pton calls
  pure (c ∷ cs)

kept_unset :
    {A B : Type 0} (g g' : Globals) (x : Run ServerConfig A) (b b' : B)
    → with_global g x b ≡ ok b' g'
    → (b' ≡ b) × (g'.initialized ≡ g.initialized)
kept_unset g g' (ok a c) b b' e =
    let q : record g { global_config = c } ≡ g' = cc e in
    (cc e, ap (λ (x : Globals). x.initialized) (sym q))
kept_unset g g' blocked b b' e = cc e
kept_unset g g' undefined b b' e = cc e
kept_unset g g' exited b b' e = cc e

null_unset :
    (b : Bool) (g g' : Globals) (x : Run ServerConfig ℤ) (o : Option ServerConfig)
    → g.initialized ≡ false
    → b ≡ false
    → (if not b then with_global g x none else ok (some g.global_config) g) ≡ ok o g'
    → (o ≡ none) × (g'.initialized ≡ false)
null_unset true g g' x o unset h e = cc h
null_unset false g g' x o unset h e =
    let (null, same) = kept_unset g g' x none o e in (null, same ∙ unset)

module _ (scan : Scan) (inet_pton : InetPton) where
  get_config-null :
      (file : Opened) (duplicated : Bool) (g g' : Globals) (o : Option ServerConfig)
      → g.initialized ≡ false
      → get_config scan inet_pton file duplicated g ≡ ok o g'
      → (o ≡ none) × (g'.initialized ≡ false)
  unfolding get_config
  get_config-null file duplicated g g' o unset e =
      null_unset g.initialized g g' (parse_config scan inet_pton file duplicated _ g.global_config)
        o unset unset e

  -- `configInitialized` starts at 0 and is never set: in any sequence of calls of getConfig that return,
  -- however the file is read, every call returns NULL.
  pub get_configs-null :
      (calls : List (Opened × Bool)) (g g' : Globals) (os : List (Option ServerConfig))
      → g.initialized ≡ false
      → get_configs scan inet_pton calls g ≡ ok os g'
      → All (λ o. o ≡ none) os
  get_configs-null [] g g' os unset e = let q : os ≡ [] = cc e in rw q tt
  get_configs-null ((file, duplicated) ∷ calls) g g' os unset e =
      let (o, g₁, e₁, e₂) = and_then-eq-ok (get_config scan inet_pton file duplicated g) _ e in
      let (rest, g₂, e₃, e₄) = and_then-eq-ok (get_configs scan inet_pton calls g₁) _ e₂ in
      let (null, unset₁) = get_config-null file duplicated g g₁ o unset e₁ in
      let q : os ≡ o ∷ rest = cc e₄ in rw q (null, get_configs-null calls g₁ g₂ rest unset₁ e₃)
