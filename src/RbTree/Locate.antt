-- ===== src/RbTree/Locate.antt =====
-- The place in a tree where a new node belongs.
use mathlib.Core.List.{nil≢cons, head-eq_of_cons-eq, tail-eq_of_cons-eq}
use mcoro.Prelude.{
  ℕ, ◌≡◌, refl, Bool, true, false, List, [], ◌∷◌, ◌++◌, ap, sym, ◌∙◌, if◌then◌else◌, All,
  append_assoc, append-nil, inl, inr, ◌⊎◌, subst,
}
use mcoro.RbTree.{left, right}
use mcoro.RbTree.Tree.{Tree, leaf, node, Place, top, under, plug, inorder}

-- The nodes in front of the place and behind it.
abbrev pub before : Place → List ℕ
before top = []
before (under left k m u c) = before c
before (under right k m t c) = before c ++ inorder t ++ m ∷ []

abbrev pub after : Place → List ℕ
after top = []
after (under left k m u c) = m ∷ inorder u ++ after c
after (under right k m t c) = after c

pub inorder-plug : (c : Place) (t : Tree) → inorder (plug c t) ≡ before c ++ (inorder t ++ after c)
inorder-plug top t = sym (append-nil (inorder t))
inorder-plug (under left k m u c) t =
    inorder-plug c (node k m t u)
    ∙ ap (λ (xs : List ℕ). before c ++ xs) (append_assoc (inorder t) (m ∷ inorder u) (after c))
inorder-plug (under right k m u c) t =
    inorder-plug c (node k m u t)
    ∙ ap (λ (xs : List ℕ). before c ++ xs) (append_assoc (inorder u) (m ∷ inorder t) (after c))
    ∙ sym (append_assoc (before c) (inorder u) (m ∷ (inorder t ++ after c)))
    ∙ sym (append_assoc (before c ++ inorder u) (m ∷ []) (inorder t ++ after c))

-- Two ways to take a list apart.
split :
    (xs : List ℕ) (m : ℕ) (zs us vs : List ℕ)
    → xs ++ m ∷ zs ≡ us ++ vs
    → ((ws : List ℕ) × (us ≡ xs ++ m ∷ ws) × (zs ≡ ws ++ vs))
      ⊎ ((ws : List ℕ) × (xs ≡ us ++ ws) × (vs ≡ ws ++ m ∷ zs))
split xs m zs [] vs e = inr (xs, refl, sym e)
split [] m zs (u ∷ us) vs e =
    inl (us, ap (λ x. x ∷ us) (sym (head-eq_of_cons-eq e)), tail-eq_of_cons-eq e)
split (x ∷ xs) m zs (u ∷ us) vs e =
    let x_u = head-eq_of_cons-eq e in
    elim (split xs m zs us vs (tail-eq_of_cons-eq e)) [
      | inl (ws, a, b) ↦ inl (ws, (λ i. sym x_u i ∷ a i), b)
      | inr (ws, a, b) ↦ inr (ws, (λ i. x_u i ∷ a i), b)
    ]

All-append_left : (P : ℕ → Type 0) (xs ys : List ℕ) → All P (xs ++ ys) → All P xs × All P ys
All-append_left P [] ys h = (tt, h)
All-append_left P (x ∷ xs) ys (h, hs) =
    ((h, (All-append_left P xs ys hs).0), (All-append_left P xs ys hs).1)

module _ (compare : ℕ → ℕ → Bool) (n : ℕ) where
  -- The place below `c` to which the search for `n` comes.
  unfoldable pub locate : Tree → Place → Place
  locate leaf c = c
  locate (node k m t u) c =
      if compare n m then locate t (under left k m u c) else locate u (under right k m t c)

  abbrev Less : ℕ → Type 0
  Less y = compare n y ≡ true

  abbrev NotLess : ℕ → Type 0
  NotLess x = compare n x ≡ false

  locate-split :
      (t : Tree) (c : Place) (xs ys : List ℕ)
      → inorder t ≡ xs ++ ys
      → All NotLess xs
      → All Less ys
      → (before (locate t c) ≡ before c ++ xs) × (after (locate t c) ≡ ys ++ after c)
  unfolding locate
  locate-split leaf c [] [] e hx hy = (sym (append-nil (before c)), refl)
  locate-split leaf c [] (y ∷ ys) e hx hy = absurd (nil≢cons e)
  locate-split leaf c (x ∷ xs) ys e hx hy = absurd (nil≢cons e)
  locate-split (node k m t u) c xs ys e hx hy = elim (split (inorder t) m (inorder u) xs ys e) [
    | inl (ws, a, b) ↦
        let (ht, (hm, hw)) =
          All-append_left NotLess (inorder t) (m ∷ ws) (subst (All NotLess) a hx) in
        let (f, g) = locate-split u (under right k m t c) ws ys b hw hy in
        rw hm (
          f
              ∙ append_assoc (before c ++ inorder t) (m ∷ []) ws
              ∙ append_assoc (before c) (inorder t) (m ∷ ws)
              ∙ ap (λ (zs : List ℕ). before c ++ zs) (sym a),
          g,
        )
    | inr (ws, a, b) ↦
        let (hw, (hm, hu)) = All-append_left Less ws (m ∷ inorder u) (subst (All Less) b hy) in
        let (f, g) = locate-split t (under left k m u c) xs ws a hx hw in
        rw hm (
          f,
          g
              ∙ sym (append_assoc ws (m ∷ inorder u) (after c))
              ∙ ap (λ (zs : List ℕ). zs ++ after c) (sym b),
        )
  ]

  pub inorder-locate :
      (t : Tree) (xs ys : List ℕ)
      → inorder t ≡ xs ++ ys
      → All NotLess xs
      → All Less ys
      → inorder (plug (locate t top) (node true n leaf leaf)) ≡ xs ++ n ∷ ys
  inorder-locate t xs ys e hx hy =
      let (f, g) = locate-split t top xs ys e hx hy in
      inorder-plug (locate t top) (node true n leaf leaf)
      ∙ (λ i. f i ++ n ∷ g i)
      ∙ ap (λ (zs : List ℕ). xs ++ n ∷ zs) (append-nil ys)
