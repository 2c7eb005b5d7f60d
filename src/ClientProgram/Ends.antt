-- ===== src/ClientProgram/Ends.antt =====
-- Runs that do not use up the fuel of the menu: rules for them, and the calls of the C library.
use rc_project.Base.{
  ◌+◌, ◌-◌, ◌*◌, ◌^◌, take, ◌<◌, ◌≤◌, ◌≡◌, ◌≢◌, arith, ℕ, zero, suc, List, [], ◌∷◌, ◌++◌, Option,
  none, some, true, false, ok, Run, ◌>>=◌, fault, overflow, hung, unfinished, bad_index, ltb,
  length, pos, negsuc, ℤ, ◌==◌, if◌then◌else◌, Bool,
}
use rc_project.Text.{Bytes, codes, c_string}
use rc_project.Text.Scan.{
  scan_word, scan_int, scan_digits, read_digits, skip_space, signed, int_of, span, fill, is_space,
  is_digit,
}
use rc_project.ClientProgram.{
  drop_front, buffer_size, username_size, ip_size, Program, Reply, string, skip_line, next_line,
  read_word, read_line, read_int, receive, receive_from, receive_into,
}
use rc_project.ClientProgram.Actions.{scan_address, scan_group_ip, literal, match_text}

-- the run does not use up the fuel, and its value satisfies `P` if there is one
abbrev pub Ends {ℓ} : {A : Type ℓ} → (A → Type 0) → Run A → Type 0
Ends P (ok a) = P a
Ends P (fault e) = e ≢ unfinished

pub Ends-bind {ℓ κ} :
    {A : Type ℓ} {B : Type κ} (P : A → Type 0) (Q : B → Type 0) (m : Run A) (f : A → Run B)
    → Ends P m
    → ((a : A) → P a → Ends Q (f a))
    → Ends Q (m >>= f)
Ends-bind P Q (ok a) f h k = k a h
Ends-bind P Q (fault e) f h k = h

pub Ends-imp {ℓ} :
    {A : Type ℓ} {P Q : A → Type 0} → ((a : A) → P a → Q a) → (m : Run A) → Ends P m → Ends Q m
Ends-imp f (ok a) h = f a h
Ends-imp f (fault e) h = h

pub Ends-if {ℓ} :
    {A : Type ℓ} (P : A → Type 0) (b : Bool) (x y : Run A)
    → Ends P x
    → Ends P y
    → Ends P (if b then x else y)
Ends-if P true x y h k = h
Ends-if P false x y h k = k

abbrev pub OnSome {ℓ} : {A : Type ℓ} → (A → Type 0) → Option A → Type 0
OnSome P none = Unit
OnSome P (some a) = P a

pub Ends-option {ℓ κ} :
    {A : Type ℓ} {B : Type κ} (P : A → Type 0) (Q : B → Type 0) (o : Option A) (x : Run B)
    (f : A → Run B)
    → OnSome P o
    → Ends Q x
    → ((a : A) → P a → Ends Q (f a))
    → Ends Q (elim o [ none ↦ x | some a ↦ f a ])
Ends-option P Q none x f h e k = e
Ends-option P Q (some a) x f h e k = k a h

pub any {ℓ} : {A : Type ℓ} (o : Option A) → OnSome (λ a. Unit {0}) o
any none = tt
any (some a) = tt

pub OnSome-imp {ℓ} :
    {A : Type ℓ} {P Q : A → Type 0}
    → ((a : A) → P a → Q a)
    → (o : Option A) → OnSome P o
    → OnSome Q o
OnSome-imp f none h = tt
OnSome-imp f (some a) h = f a h

pub OnSome-if {ℓ} :
    {A : Type ℓ} (P : A → Type 0) (b : Bool) (x : A) → P x → OnSome P (if b then some x else none)
OnSome-if P true x h = h
OnSome-if P false x h = tt

-- a conversion, and what follows if it fails and if it matches
pub Ends-found {ℓ κ} :
    {A : Type ℓ} {B : Type κ} (P : A → Type 0) (Q : B → Type 0) (m : Run (Option A)) (x : Run B)
    (f : A → Run B)
    → Ends (OnSome P) m
    → Ends Q x
    → ((a : A) → P a → Ends Q (f a))
    → Ends Q (m >>= λ o. elim o [ none ↦ x | some a ↦ f a ])
Ends-found P Q m x f h e k = Ends-bind (OnSome P) Q m _ h (λ o g. Ends-option P Q o x f g e k)

overflow-end : overflow ≢ unfinished
overflow-end e = cc

hung-end : hung ≢ unfinished
hung-end e = cc

pub le_self : (p : Program) → length p.stdin ≤ length p.stdin
le_self p = omega arith

length-span : (test : ℕ → Bool) (w : Bytes) → length (span test w).1 ≤ length w
length-span test [] = omega arith
length-span test (c ∷ w) = let ih = length-span test w in ground arith

length-skip_space : (w : Bytes) → length (skip_space w) ≤ length w
unfolding skip_space
length-skip_space [] = omega arith
length-skip_space (c ∷ w) = let ih = length-skip_space w in ground arith

-- a match, of which not more than `n` bytes are left
abbrev pub Rest {ℓ} : {A : Type ℓ} → ℕ → A × Bytes → Type 0
Rest n (a, rest) = length rest ≤ n

fill-Ends : (size n : ℕ) (x : Bytes × Bytes) → length x.1 ≤ n → Ends (OnSome (Rest n)) (fill size x)
fill-Ends size n ([], rest) h = tt
fill-Ends size n (c ∷ w, rest) h =
    Ends-if (OnSome (Rest n)) (ltb (length (c ∷ w)) size) (ok (some (c ∷ w, rest))) (fault overflow)
      h overflow-end

scan_word-Ends : (size : ℕ) (s : Bytes) → Ends (OnSome (Rest (length s))) (scan_word size s)
unfolding scan_word
scan_word-Ends size s =
    let h1 = length-span (λ c. if is_space c then false else true) (skip_space s) in
    let h2 = length-skip_space s in
    fill-Ends size (length s) (span (λ c. if is_space c then false else true) (skip_space s))
      (omega arith)

-- what is typed is read, and not more of it is left
abbrev pub Less {ℓ} : {A : Type ℓ} → Program → A × Program → Type 0
Less p (a, p') = length p'.stdin ≤ length p.stdin

pub read_word-Ends : (size : ℕ) (a : Bytes) (p : Program) → Ends (Less p) (read_word size a p)
unfolding read_word
read_word-Ends size a p =
    Ends-found (Rest (length p.stdin)) (Less p) (scan_word size p.stdin) _ _
      (scan_word-Ends size p.stdin) (omega arith) (λ x h. h)

pub read_line-Ends : (size : ℕ) (a : Bytes) (p : Program) → Ends (Less p) (read_line size a p)
unfolding read_line
read_line-Ends size a p =
    let test : ℕ → Bool = λ c. if c == b'\n' then false else true in
    Ends-found (Rest (length p.stdin)) (Less p) (fill size (span test p.stdin)) _ _
      (fill-Ends size (length p.stdin) (span test p.stdin) (length-span test p.stdin)) (omega arith)
      (λ x h. h)

skip_line-Ends : (s : Bytes) → Ends (λ s'. length s' < length s) (skip_line s)
unfolding skip_line
skip_line-Ends [] = hung-end
skip_line-Ends (c ∷ s) =
    Ends-if (λ s'. length s' < length (c ∷ s)) (c == b'\n') (ok s) (skip_line s) (omega arith)
      (Ends-imp (λ s' h. omega arith) (skip_line s) (skip_line-Ends s))

pub next_line-Ends : (p : Program) → Ends (λ p'. length p'.stdin < length p.stdin) (next_line p)
next_line-Ends p = Ends-bind _ _ (skip_line p.stdin) _ (skip_line-Ends p.stdin) (λ s h. h)

pub string-Ends : (a : Bytes) → Ends (λ t. Unit {0}) (string a)
unfolding string
string-Ends a =
    Ends-option (λ t. Unit {0}) (λ t. Unit {0}) (c_string a) (fault bad_index) ok (any (c_string a))
      (λ (k : bad_index ≡ unfinished). cc) (λ t h. tt)

received-Ends : (size : ℕ) (a bytes : Bytes) → Ends (λ o. Unit {0}) (receive_into size a bytes)
unfolding receive_into
received-Ends size a [] = tt
received-Ends size a (b ∷ bytes) =
    let front = take buffer_size (b ∷ bytes) in
    Ends-if (λ (o : Option Bytes). Unit {0}) (ltb size (length front)) (fault overflow)
      (ok (some (front ++ drop_front (length front) a))) overflow-end tt

receive_from-Ends :
    (size : ℕ) (a : Bytes) (rs : List (Option Reply)) (p : Program)
    → Ends (Less p) (receive_from size a rs p)
receive_from-Ends size a [] p = hung-end
receive_from-Ends size a (none ∷ rs) p = le_self p
receive_from-Ends size a (some r ∷ rs) p =
    Ends-bind _ (Less p) (receive_into size a r.bytes) _ (received-Ends size a r.bytes)
      (λ o h. le_self p)

pub receive-Ends : (size : ℕ) (a : Bytes) (p : Program) → Ends (Less p) (receive size a p)
unfolding receive
receive-Ends size a p = receive_from-Ends size a p.replies p

digits-Ends :
    (minus : Bool) (o : Option (ℕ × Bytes)) (n : ℕ)
    → OnSome (Rest n) o
    → Ends (OnSome (Rest n)) (int_of minus o)
digits-Ends minus none n h = tt
digits-Ends false (some (k, s)) n h =
    Ends-if (OnSome (Rest n)) (ltb k (2 ^ 31)) (ok (some (pos k, s))) (fault overflow) h
      overflow-end
digits-Ends true (some (zero, s)) n h = h
digits-Ends true (some (suc k, s)) n h =
    Ends-if (OnSome (Rest n)) (ltb k (2 ^ 31)) (ok (some (negsuc k, s))) (fault overflow) h
      overflow-end

length-read_digits : (k : ℕ) (s : Bytes) → length (read_digits k s).1 ≤ length s
unfolding read_digits
length-read_digits k [] = omega arith
length-read_digits k (c ∷ s) = let ih = length-read_digits (k * 10 + (c - b'0')) s in ground arith

length-scan_digits : (s : Bytes) → OnSome (Rest (length s)) (scan_digits s)
unfolding scan_digits
length-scan_digits [] = tt
length-scan_digits (c ∷ s) =
    OnSome-if (Rest (length (c ∷ s))) (is_digit c) (read_digits 0 (c ∷ s))
      (length-read_digits 0 (c ∷ s))

length-signed : (s : Bytes) → length (signed s).1 ≤ length s
length-signed [] = omega arith
length-signed (c ∷ s) = ground arith

scan_int-Ends : (s : Bytes) → Ends (OnSome (Rest (length s))) (scan_int s)
unfolding scan_int
scan_int-Ends s =
    let rest = (signed (skip_space s)).1 in
    let h1 = length-signed (skip_space s) in
    let h2 = length-skip_space s in
    let h3 = length-scan_digits rest in
    digits-Ends (signed (skip_space s)).0 (scan_digits rest) (length s) (
      OnSome-imp (λ (x : ℕ × Bytes) (h : length x.1 ≤ length rest). omega arith) (scan_digits rest)
        h3)

pub read_int-Ends : (option : ℤ) (p : Program) → Ends (Less p) (read_int option p)
unfolding read_int
read_int-Ends option p =
    let h1 = length-signed (skip_space p.stdin) in
    let h2 = length-skip_space p.stdin in
    Ends-found (Rest (length p.stdin)) (Less p) (scan_int p.stdin) _ _ (scan_int-Ends p.stdin)
      (omega arith) (λ x h. h)

literal-Ends : (f s : Bytes) → Ends (OnSome (λ x. Unit {0})) (literal f s)
literal-Ends f s =
    Ends-option (λ t. Unit {0}) _ (match_text f s) _ _ (any (match_text f s)) tt (λ t h. tt)

pub scan_address-Ends : (s : Bytes) → Ends (λ o. Unit {0}) (scan_address s)
unfolding scan_address
scan_address-Ends s =
    Ends-found _ _ (scan_word username_size s) _ _ (scan_word-Ends username_size s) tt
      (λ (u, r1) h1.
        Ends-found _ _ (literal (codes " IP: ") r1) _ _ (literal-Ends (codes " IP: ") r1) tt
          (λ (x, r2) h2.
            Ends-found _ _ (scan_word ip_size r2) _ _ (scan_word-Ends ip_size r2) tt (λ (ip, r3) h3.
              Ends-found _ _ (literal (codes " Port: ") r3) _ _ (literal-Ends (codes " Port: ") r3)
                tt
                (λ (y, r4) h4.
                  Ends-found _ _ (scan_int r4) _ _ (scan_int-Ends r4) tt (λ z h5. tt)))))

pub scan_group_ip-Ends : (s : Bytes) → Ends (λ o. Unit {0}) (scan_group_ip s)
unfolding scan_group_ip
scan_group_ip-Ends s =
    Ends-found _ _ (literal (codes "Multicast IP ") s) _ _ (literal-Ends (codes "Multicast IP ") s)
      tt
      (λ (x, r) h.
        Ends-found _ _ (scan_word ip_size r) _ _ (scan_word-Ends ip_size r) tt (λ z h'. tt))
