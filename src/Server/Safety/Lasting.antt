-- ===== src/Server/Safety/Lasting.antt =====
-- What the commands make of the list of groups.
use rc_project.Base.{
  ◌≡◌, refl, ◌∙◌, arith, List, [], ◌∷◌, none, some, Bool-cases, inl, inr, is_neg, is_pos, false,
  Run, ok, fault, Returns, Holds, Holds-any, ℤ,
}
use rc_project.Memory.{Ptr, load}
use rc_project.Text.{Bytes}
use rc_project.Avl.Order.{IsComparator, find, insert_sorted, is_same}
use rc_project.Server.{Server, Group, group_cmp, send_udp_message}
use rc_project.Server.Commands.{cmd_login, cmd_msg, cmd_p2p}
use rc_project.Server.Groups.{groups_of, grp}
use rc_project.Server.Safety.{ServerValid}
use rc_project.Server.Safety.Answers.{Answers, cmd_login-Post, cmd_msg-Post, cmd_p2p-Post}

module _ {ℓ} {A : Type ℓ} (cmp : A → A → ℤ) (c : IsComparator cmp) where
  open c use {flip, equal_left, equal_right}

  find-same :
      (a x : A) (xs : List A)
      → is_neg (cmp a x) ≡ false
      → is_pos (cmp a x) ≡ false
      → find cmp a xs ≡ find cmp x xs
  unfolding find
  find-same a x [] n p = refl
  find-same a x (y ∷ ys) n p =
      ground (
        arith,
        find-same a x ys n p,
        equal_left a x y n p,
        equal_right a x y n p,
        flip a y,
        flip x y,
      )

  find-insert_apart :
      (a x : A) (xs : List A)
      → is_same cmp a x ≡ false
      → find cmp a (insert_sorted cmp x xs) ≡ find cmp a xs
  unfolding find insert_sorted
  find-insert_apart a x [] other = rw other refl
  find-insert_apart a x (y ∷ ys) other = ground (arith, find-insert_apart a x ys other)

  -- what is found is found behind an insertion of a new key
  pub find-insert_other :
      (a x : A) (xs : List A) {g : A}
      → find cmp x xs ≡ none
      → find cmp a xs ≡ some g
      → find cmp a (insert_sorted cmp x xs) ≡ some g
  find-insert_other a x xs missing there = elim (Bool-cases (is_same cmp a x)) [
    | inl same ↦
        let n : is_neg (cmp a x) ≡ false = ground arith in
        let p : is_pos (cmp a x) ≡ false = ground arith in let e = find-same a x xs n p in cc
    | inr other ↦ find-insert_apart a x xs other ∙ there
  ]

-- a group that is found by its name stays as it is
abbrev pub Lasts : Server → Server → Type 0
Lasts s s' =
    (name : Bytes) (g : Group)
    → find group_cmp (grp name []) (groups_of s) ≡ some g
    → find group_cmp (grp name []) (groups_of s') ≡ some g

-- neither the groups nor their tree are touched
pub record SameGroups (s s' : Server) : Type 0 where
  pub heap : s'.group_heap ≡ s.group_heap
  pub tree : s'.group_list ≡ s.group_list

pub SameGroups-Lasts : (s s' : Server) → SameGroups s s' → Lasts s s'
SameGroups-Lasts s s' k name g e = rw (k.heap, k.tree) e

SameGroups-Answers : (t : Server) → Answers (SameGroups t) (SameGroups t)
unfolding send_udp_message
SameGroups-Answers t = record {
  replies = λ p text s k.
      Holds-any (SameGroups t) (load p s.sessions) _
        (λ client. record { heap = k.heap; tree = k.tree });
  sends = λ packet s k. record { heap = k.heap; tree = k.tree };
  clients = λ h s k. record { heap = k.heap; tree = k.tree };
  sessions = λ h s k. record { heap = k.heap; tree = k.tree };
  again = λ s k. k;
}

-- a valid state in which the groups of the state before are as they were
abbrev pub Onward : Server → Server → Type 0
Onward s s' = ServerValid s' × Lasts s s'

pub Lasts-trans : (s s' s'' : Server) → Lasts s s' → Lasts s' s'' → Lasts s s''
Lasts-trans s s' s'' f g name x e = g name x (f name x e)

Lasts-refl : (s : Server) → Lasts s s
Lasts-refl s name g e = e

same : (s : Server) → SameGroups s s
same s = record { heap = refl; tree = refl }

-- a run that keeps the state valid and leaves the groups alone
pub onward :
    (s : Server) (m : Run Server)
    → Returns ServerValid m
    → Holds (SameGroups s) m
    → Returns (Onward s) m
onward s (ok s') v k = (v, SameGroups-Lasts s s' k)
onward s (fault e) v k = v

module _ (p : Ptr) (args : Bytes) (s : Server) where
  pub cmd_login-SameGroups : Holds (SameGroups s) (cmd_login p args s)
  cmd_login-SameGroups =
      cmd_login-Post (SameGroups s) (SameGroups s) (SameGroups-Answers s) p args s (same s)

  pub cmd_msg-SameGroups : Holds (SameGroups s) (cmd_msg p args s)
  cmd_msg-SameGroups =
      cmd_msg-Post (SameGroups s) (SameGroups s) (SameGroups-Answers s) p args s (same s)

  pub cmd_p2p-SameGroups : Holds (SameGroups s) (cmd_p2p p args s)
  cmd_p2p-SameGroups =
      cmd_p2p-Post (SameGroups s) (SameGroups s) (SameGroups-Answers s) p args s (same s)
