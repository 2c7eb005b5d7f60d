-- ===== src/ClientProgram/Leaving.antt =====
-- The menu of code/client/src/main.c on numbers that are typed, each on a line of its own.
use rc_project.Base.{ℕ, ◌^◌, ◌<◌, List, [], ◌∷◌, ◌++◌, pos}
use rc_project.Text.{Bytes, codes}
use rc_project.Text.Decimal.{print_int}
use rc_project.ClientProgram.Menu.{menu}

-- numbers that are options of the menu no more
abbrev pub IsUnknown : ℕ → Type 0
IsUnknown n = (5 < n) × (n < 2 ^ 31)

-- the numbers as they are typed, and then the 0
abbrev pub typed_options : List ℕ → Bytes → Bytes
typed_options [] rest = print_int (pos 0) ++ (b'\n' ∷ rest)
typed_options (n ∷ ns) rest = print_int (pos n) ++ (b'\n' ∷ typed_options ns rest)

-- what is printed for them
abbrev pub shown_options : List ℕ → List Bytes
shown_options [] = menu ∷ codes "Leaving\n" ∷ []
shown_options (n ∷ ns) = menu ∷ codes "Option not found\n" ∷ shown_options ns
