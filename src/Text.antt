-- ===== src/Text.antt =====
-- C strings: code/server/src/utils/string.c, the functions of string.h and stdio.h that the sources
-- call, and code/client/src/utils/functions.c's `starts_with`. A string is the list of its bytes
-- before the NUL.
pub mod Compare
pub mod Prefix
pub mod Decimal
pub mod Scan
use Prim.Native.Char.{code}
use Prim.Native.String.{String}
use rc_project.Base.{
  ℕ, suc, ◌+◌, ◌-◌, Bool, true, false, ◌||◌, List, [], ◌∷◌, ◌++◌, Option, none, some, ltb, ◌==◌,
  length, take, if◌then◌else◌, ℤ, pos, negsuc, sub_ℕ, Run, ok, fault, overflow, is_nonzero, not,
}

abbrev pub Bytes : Type 0
Bytes = List ℕ

-- the bytes of a literal
abbrev pub codes : String → Bytes
codes String.[] = []
codes (String.◌∷◌ c s) = code c ∷ codes s

-- The difference of the first bytes that differ; at the end of one string alone, its NUL is behind
-- no other byte.
unfoldable pub strcmp : Bytes → Bytes → ℤ
strcmp [] [] = pos 0
strcmp [] (y ∷ ys) = negsuc (y - 1)
strcmp (x ∷ xs) [] = pos (suc (x - 1))
strcmp (x ∷ xs) (y ∷ ys) = if x == y then strcmp xs ys else sub_ℕ x y

-- `strcpy` into an array of `size` bytes
unfoldable pub strcpy : ℕ → Bytes → Run Bytes
strcpy size s = if ltb (length s) size then ok s else fault overflow

unfoldable pub remove_end_line : Bytes → Bytes
remove_end_line [] = []
remove_end_line (c ∷ s) = if (c == b'\r') || (c == b'\n') then [] else c ∷ remove_end_line s

-- `none` is `NULL`
unfoldable pub parse_cmd : Option Bytes → Bytes → Bool
parse_cmd none b = false
parse_cmd (some a) b = not (is_nonzero (strcmp a b))

-- `for(size_t i = 0; i < strlen(b); i++)`, whose reads of `a` stay before its end
unfoldable pub starts_with_loop : Bytes → Bytes → Bool
starts_with_loop a [] = true
starts_with_loop [] (y ∷ b) = false
starts_with_loop (x ∷ a) (y ∷ b) = if not (x == y) then false else starts_with_loop a b

unfoldable pub starts_with : Bytes → Bytes → Bool
starts_with a b = if ltb (length a) (length b) then false else starts_with_loop a b

-- the spaces at the front, and what follows them
abbrev pub span_spaces : Bytes → Bytes × Bytes
span_spaces [] = ([], [])
span_spaces (c ∷ s) =
    let (front, rest) = span_spaces s in if c == b' ' then (c ∷ front, rest) else ([], c ∷ s)

-- up to the first space, and what follows it
abbrev pub cut_space : Bytes → Bytes × Bytes
cut_space [] = ([], [])
cut_space (c ∷ s) =
    let (word, rest) = cut_space s in if c == b' ' then ([], s) else (c ∷ word, rest)

-- `strtok_r(s, " ", &rest)` for its effects: the string at `s` afterwards, and the one at `rest`.
-- Spaces before the token stay where they are.
unfoldable pub strtok_r : Bytes → Bytes × Bytes
strtok_r s =
    let (front, token) = span_spaces s in
    let (word, rest) = cut_space token in (front ++ word, rest)

-- `snprintf(buffer, size, …)`: at most `size - 1` bytes are kept
unfoldable pub snprintf : ℕ → Bytes → Bytes
snprintf size s = take (size - 1) s

-- the string in a buffer of bytes: those before its first NUL, `none` if it has no NUL
unfoldable pub c_string : List ℕ → Option Bytes
c_string [] = none
c_string (b ∷ bs) = elim (c_string bs) [
  | none ↦ if b == 0 then some [] else none
  | some s ↦ if b == 0 then some [] else some (b ∷ s)
]
