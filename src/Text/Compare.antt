-- ===== src/Text/Compare.antt =====
-- strcmp as an order of the strings, and parse_cmd and starts_with of utils/string.c.
use rc_project.Base.{
  ◌≡◌, refl, arith, true, false, [], ◌∷◌, ◌++◌, pos, is_neg, is_pos, is_nonzero, some,
}
use rc_project.Text.{Bytes, strcmp, parse_cmd, starts_with_loop}

pub strcmp-flip : (a b : Bytes) → is_pos (strcmp a b) ≡ is_neg (strcmp b a)
unfolding strcmp
strcmp-flip [] [] = refl
strcmp-flip [] (y ∷ b) = refl
strcmp-flip (x ∷ a) [] = ground arith
strcmp-flip (x ∷ a) (y ∷ b) = ground (arith, strcmp-flip a b)

pub strcmp_trans :
    (a b c : Bytes)
    → is_neg (strcmp a b) ≡ true
    → is_neg (strcmp b c) ≡ true
    → is_neg (strcmp a c) ≡ true
unfolding strcmp
strcmp_trans [] [] c h k = cc
strcmp_trans [] (y ∷ b) [] h k = ground arith
strcmp_trans [] (y ∷ b) (z ∷ c) h k = refl
strcmp_trans (x ∷ a) [] c h k = cc
strcmp_trans (x ∷ a) (y ∷ b) [] h k = ground arith
strcmp_trans (x ∷ a) (y ∷ b) (z ∷ c) h k = ground (arith, strcmp_trans a b c)

pub eq_of_strcmp : (a b : Bytes) → is_neg (strcmp a b) ≡ false → is_pos (strcmp a b) ≡ false → a ≡ b
unfolding strcmp
eq_of_strcmp [] [] n p = refl
eq_of_strcmp [] (y ∷ b) n p = cc
eq_of_strcmp (x ∷ a) [] n p = ground arith
eq_of_strcmp (x ∷ a) (y ∷ b) n p = ground (arith, eq_of_strcmp a b)

pub strcmp_refl : (a : Bytes) → strcmp a a ≡ pos 0
unfolding strcmp
strcmp_refl [] = refl
strcmp_refl (x ∷ a) = ground (arith, strcmp_refl a)

pub eq_of_not_nonzero : (a b : Bytes) → is_nonzero (strcmp a b) ≡ false → a ≡ b
eq_of_not_nonzero a b e = ground (arith, eq_of_strcmp a b)

pub parse_cmd-eq : (a b : Bytes) → parse_cmd (some a) b ≡ true → a ≡ b
unfolding parse_cmd
parse_cmd-eq a b e = eq_of_not_nonzero a b (ground arith)

pub parse_cmd_refl : (a : Bytes) → parse_cmd (some a) a ≡ true
unfolding parse_cmd
parse_cmd_refl a = rw (strcmp_refl a)

starts_with_loop-append : (b rest : Bytes) → starts_with_loop (b ++ rest) b ≡ true
unfolding starts_with_loop
starts_with_loop-append [] rest = refl
starts_with_loop-append (y ∷ b) rest = ground (arith, starts_with_loop-append b rest)
