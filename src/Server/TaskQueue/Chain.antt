-- ===== src/Server/TaskQueue/Chain.antt =====
-- The nodes of a queue that is not empty. The `Pnext_` of the last one is arbitrary.
use nex_file.Base.{ℕ, ◌≡◌, ◌≢◌, refl, sym, ◌∙◌, List, [], ◌∷◌, ◌++◌, Option, none, some, All, arith}
use nex_file.Server.TaskQueue.{Ptr, null, Node, node, Memory, poke}

-- Address and descriptor of each node, in order.
abbrev pub Cells : Type 0
Cells = List (Ptr × ℕ)

abbrev pub IsNew : Ptr → Cells → Type 0
IsNew a xs = All (λ c. c.0 ≢ a) xs

-- From `p` the links lead through distinct nodes to `last`.
pub data Chain (h : Memory) (last : Ptr) : Ptr → Cells → Type 0 where
  one :
      {p : Ptr} {v : ℕ} (q : Ptr)
      → p ≡ last
      → p ≢ null
      → h p ≡ some (node v q)
      → Chain h last p ((p, v) ∷ [])
  more :
      {p q : Ptr} {v : ℕ} {xs : Cells}
      → p ≢ null
      → h p ≡ some (node v q)
      → IsNew p xs
      → Chain h last q xs
      → Chain h last p ((p, v) ∷ xs)

-- The tail pointer points at a node.
pub record Tail (h : Memory) (last : Ptr) : Type 0 where
  pub ne_null : last ≢ null
  pub fd : ℕ
  pub rest : Ptr
  pub holds : h last ≡ some (node fd rest)

IsNew-snoc : (p a v : ℕ) (xs : Cells) → IsNew p xs → a ≢ p → IsNew p (xs ++ (a, v) ∷ [])
IsNew-snoc p a v [] new ne = (ne, tt)
IsNew-snoc p a v (x ∷ xs) new ne = (new.0, IsNew-snoc p a v xs new.1 ne)

module _ {h : Memory} {last : Ptr} where
  pub Tail-of : {p : Ptr} {xs : Cells} → Chain h last p xs → Tail h last
  Tail-of (one {v} q e n holds) = record {
    ne_null = ground arith;
    fd = v;
    rest = q;
    holds = ground arith;
  }
  Tail-of (more n holds out c) = Tail-of c

  last_ne : {p : Ptr} {xs : Cells} (a : Ptr) → Chain h last p xs → IsNew a xs → last ≢ a
  last_ne a (one q e n holds) out = ground arith
  last_ne a (more n holds new c) out = last_ne a c out.1

  -- An unused address is none of the chain.
  pub IsNew-of_none : {p : Ptr} {xs : Cells} (a : Ptr) → Chain h last p xs → h a ≡ none → IsNew a xs
  IsNew-of_none a (one q e n holds) unused = (λ x. ground arith, tt)
  IsNew-of_none a (more n holds out c) unused = (λ x. ground arith, IsNew-of_none a c unused)

  pub Chain-poke :
      {p : Ptr} {xs : Cells} (a : Ptr) (c : Option Node)
      → Chain h last p xs
      → IsNew a xs
      → Chain (poke h a c) last p xs
  unfolding poke
  Chain-poke a c (one q e n holds) new = one q e n (ground (arith, new.0))
  Chain-poke a c (more n holds out rest) new =
      more n (ground (arith, new.0)) out (Chain-poke a c rest new.1)

  -- Linking the last node to a new one extends the chain.
  pub Chain-snoc :
      {p : Ptr} {xs : Cells} (g : Memory) (a v w r b : ℕ)
      → Chain h last p xs
      → a ≢ null
      → h a ≡ none
      → h last ≡ some (node w r)
      → g a ≡ some (node v b)
      → g last ≡ some (node w a)
      → ((k : Ptr) → k ≢ a → k ≢ last → g k ≡ h k)
      → Chain g a p (xs ++ (a, v) ∷ [])
  Chain-snoc g a v w r b (one {p} {v = u} q e n holds) na unused old new linked same =
      more n (ground arith) (ground arith, tt) (one b refl na new)
  Chain-snoc g a v w r b (more {p} {q} {xs} n holds out c) na unused old new linked same =
      let fresh : p ≢ a = λ e. ground arith in
      let inner : last ≢ p = last_ne p c out in
      more n (same p fresh (λ e. inner (sym e)) ∙ holds)
        (IsNew-snoc p a v xs out (λ e. fresh (sym e)))
        (Chain-snoc g a v w r b c na unused old new linked same)
