-- ===== src/Server/Safety/Agreement.antt =====
-- Searches for an account by its name, and for a session by its address, that find the same before
-- and after a login.
use mathlib.Core.List.{map}
use rc_project.Base.{
  ◌==◌, ◌≡◌, refl, ap, sym, ◌∙◌, List, [], ◌∷◌, some, false, Bool-cases, inl, inr, is_neg, is_pos,
  arith,
}
use rc_project.Memory.{Ptr, Heap, store}
use rc_project.Text.{strcmp}
use rc_project.Text.Compare.{eq_of_strcmp}
use rc_project.Avl.Order.{find, is_same}
use rc_project.Server.{Client, Session, data_cmp, session_cmp}
use rc_project.Server.Safety.Logins.{bound, bound-ip, bound-port}

pub find-named :
    (a b : Client) (xs : List Client)
    → a.username ≡ b.username
    → find data_cmp a xs ≡ find data_cmp b xs
unfolding data_cmp find
find-named a b [] e = refl
find-named a b (x ∷ xs) e = rw (e, find-named a b xs e)

pub find-name :
    (a : Client) (xs : List Client) {c : Client}
    → find data_cmp a xs ≡ some c
    → a.username ≡ c.username
unfolding data_cmp find
find-name a [] e = cc
find-name a (x ∷ xs) {c} e = elim (Bool-cases (is_same data_cmp a x)) [
  | inl hit ↦
      let here : some x ≡ some c = rw hit at e in
      let same : x ≡ c = cc in
      let n : is_neg (strcmp a.username x.username) ≡ false = ground (arith, hit) in
      let p : is_pos (strcmp a.username x.username) ≡ false = ground (arith, hit) in
      eq_of_strcmp a.username x.username n p ∙ ap (λ (k : Client). k.username) same
  | inr miss ↦ find-name a xs (rw miss at e)
]

-- two sessions at the same socket and address
pub record Agrees (x y : Session) : Type 0 where
  pub ip : x.ip ≡ y.ip
  pub port : x.port ≡ y.port
  pub sock : x.sock ≡ y.sock
  pub socket : x.socket ≡ y.socket

-- the session of a login stays where it is
pub bound-Agrees :
    (q r : Ptr) (h : Heap Session) (x : Ptr) → Agrees ((store q (bound q r h) h).cell x) (h.cell x)
bound-Agrees q r h x = record {
  ip = bound-ip q r h x;
  port = bound-port q r h x;
  sock = elim (Bool-cases (x == q)) [
    | inl e ↦ let here : x ≡ q = ground arith in rw e (ap (λ (z : Ptr). (h.cell z).sock) (sym here))
    | inr e ↦ rw e
  ];
  socket = elim (Bool-cases (x == q)) [
    | inl e ↦
        let here : x ≡ q = ground arith in rw e (ap (λ (z : Ptr). (h.cell z).socket) (sym here))
    | inr e ↦ rw e
  ];
}

-- a search by address and port where neither has changed
pub find-Agrees :
    (a t : Session) (cell cell' : Ptr → Session) (ps : List Ptr)
    → ((r : Ptr) → Agrees (cell' r) (cell r))
    → find session_cmp a (map cell ps) ≡ some t
    → (t' : Session) × (find session_cmp a (map cell' ps) ≡ some t') × Agrees t' t
unfolding session_cmp find
find-Agrees a t cell cell' [] f e = cc
find-Agrees a t cell cell' (r ∷ ps) f e = elim (Bool-cases (is_same session_cmp a (cell r))) [
  | inl hit ↦
      let here : some (cell r) ≡ some t = rw hit at e in
      let same : cell r ≡ t = cc in
      (cell' r, rw ((f r).ip, (f r).port, hit) refl, rw (sym same) (f r))
  | inr miss ↦
      let (t', found, k) = find-Agrees a t cell cell' ps f (rw miss at e) in
      (t', rw ((f r).ip, (f r).port, miss) found, k)
]
