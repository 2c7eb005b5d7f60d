-- ===== src/Server/Commands/Moved.antt =====
-- The accounts when LOGIN of client_commands.c has written a port and an address to one of them.
use mathlib.Core.List.{map}
use mathlib.Core.Path.{ap₂}
use rc_project.Avl.{elements}
use rc_project.Avl.Handle.{AvlTree}
use rc_project.Avl.Handle.Refines.{IsValid, IsValid-agree, contents}
use rc_project.Server.Users.Persist.{stored}
use rc_project.Base.{Bool-cases, inl, inr, ◌≡◌, refl, ap, sym, arith, List, [], ◌∷◌, ℤ, ◌==◌}
use rc_project.Memory.{Ptr, Heap, store}
use rc_project.Text.{Bytes, strcmp}
use rc_project.Server.{Client, data_cmp}

map-map_agree :
    {A B C : Type 0} (k : B → C) (f g : A → B)
    → ((a : A) → k (f a) ≡ k (g a))
    → (xs : List A) → map k (map f xs) ≡ map k (map g xs)
map-map_agree k f g e [] = refl
map-map_agree k f g e (x ∷ xs) = cc (e x, map-map_agree k f g e xs)

-- a heap in which one record has got another port and another address
module _ (q : Ptr) (port : ℤ) (ip : Bytes) (h : Heap Client) where
  abbrev pub moved : Client
  moved = record (h.cell q) { port = port; ip = ip }

  moved-username : (a : Ptr) → ((store q moved h).cell a).username ≡ (h.cell a).username
  moved-username a = elim (Bool-cases (a == q)) [
    | inl e ↦
        let here : a ≡ q = ground arith in rw e (ap (λ (z : Ptr). (h.cell z).username) (sym here))
    | inr e ↦ rw e
  ]

  moved-stored :
      ip ≡ (h.cell q).ip → (a : Ptr) → stored ((store q moved h).cell a) ≡ stored (h.cell a)
  moved-stored same a = elim (Bool-cases (a == q)) [
    | inl e ↦
        let here : a ≡ q = ground arith in
        rw (e, same) (ap (λ (z : Ptr). stored (h.cell z)) (sym here))
    | inr e ↦ rw e
  ]

  pub moved-IsValid :
      (tree : AvlTree Client) → IsValid data_cmp h tree → IsValid data_cmp (store q moved h) tree
  unfolding data_cmp
  moved-IsValid tree v =
      IsValid-agree data_cmp h (store q moved h) tree v
        (λ a b _ _. ap₂ strcmp (sym (moved-username a)) (sym (moved-username b))) (λ a l. l)

  pub moved-contents :
      ip ≡ (h.cell q).ip
      → (tree : AvlTree Client)
      → map stored (contents (store q moved h) tree) ≡ map stored (contents h tree)
  moved-contents same tree =
      map-map_agree stored (store q moved h).cell h.cell (moved-stored same) (elements tree.root)
