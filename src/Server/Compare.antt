-- ===== src/Server/Compare.antt =====
-- The comparisons of main.c, and what the trees ask of them.
use rc_project.Base.{◌≡◌, ap, arith, is_neg, is_nonzero}
use rc_project.Text.{Bytes, strcmp}
use rc_project.Text.Compare.{strcmp-flip, strcmp_trans, eq_of_strcmp, strcmp_refl}
use rc_project.Avl.Order.{IsComparator}
use rc_project.Avl.Handle.Mapped.{IsComparator-through}
use rc_project.Server.{Client, Group, data_cmp, group_cmp, session_cmp}

strcmp-IsComparator : IsComparator strcmp
strcmp-IsComparator = record {
  flip = strcmp-flip;
  trans = strcmp_trans;
  equal_left = λ a b c n p. ap (λ t. is_neg (strcmp t c)) (eq_of_strcmp a b n p);
  equal_right = λ a b c n p. ap (λ t. is_neg (strcmp c t)) (eq_of_strcmp a b n p);
}

-- `data_cmp` orders the users by name, with users of one name as equals: its sign is antisymmetric
-- and transitive, and equals cannot be told apart.
pub data_cmp-IsComparator : IsComparator data_cmp
unfolding data_cmp
data_cmp-IsComparator = IsComparator-through (λ (c : Client). c.username) strcmp strcmp-IsComparator

pub group_cmp-IsComparator : IsComparator group_cmp
unfolding group_cmp
group_cmp-IsComparator = IsComparator-through (λ (g : Group). g.name) strcmp strcmp-IsComparator

nonzero_flip : (a b : Bytes) → is_nonzero (strcmp a b) ≡ is_nonzero (strcmp b a)
nonzero_flip a b = ground (arith, strcmp-flip a b, strcmp-flip b a)

-- `session_cmp` orders the sessions by address, then by port: its sign is antisymmetric and
-- transitive, and equals cannot be told apart.
pub session_cmp-IsComparator : IsComparator session_cmp
unfolding session_cmp
session_cmp-IsComparator = record {
  flip = λ a b. ground (arith, strcmp-flip a.ip b.ip, strcmp-flip b.ip a.ip);
  trans = λ a b c. ground (
    arith,
    strcmp_trans a.ip b.ip c.ip,
    eq_of_strcmp a.ip b.ip,
    eq_of_strcmp b.ip c.ip,
    strcmp_refl a.ip,
  );
  equal_left = λ a b c. ground (arith, eq_of_strcmp a.ip b.ip);
  equal_right = λ a b c. ground (arith, eq_of_strcmp a.ip b.ip);
}
