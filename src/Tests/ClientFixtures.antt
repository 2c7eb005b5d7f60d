-- ===== src/Tests/ClientFixtures.antt =====
-- A client, its terminal and its machine, and words and datagrams, for the examples.
use rc_project.Base.{
  arith, ◌≡◌, ◌≢◌, refl, ℕ, zero, suc, List, [], ◌∷◌, ◌++◌, Option, some, true, false, pos, All,
  Bool, not, ◌==◌, ◌&&◌, Bool-cases, inl, inr, length, length-append, ◌<◌,
}
use rc_project.Text.{Bytes, codes}
use rc_project.Text.Scan.{is_space}
use rc_project.Text.Scan.Words.{IsWord, IsWordByte}
use rc_project.ClientProgram.{
  buffer_size, username_size, password_size, ip_size, Machine, Program, Reply, Target,
}
use rc_project.ClientProgram.Reads.{IsLine, Carries}

abbrev pub zeros : ℕ → Bytes
zeros zero = []
zeros (suc n) = 0 ∷ zeros n

abbrev pub machine : Machine
machine = record {
  inet_addr = λ ip. 7;
  inet_pton = λ ip. some 239;
  inet_ntop = λ a. codes "10.0.0.7";
  add_membership = λ joined a. true;
  junk = zeros;
  junk_int = pos 0;
}

abbrev pub far : Target
far = record { s_addr = 10; sin_port = 5000 }

-- a client with some text left to read and some datagrams on the way
abbrev pub client : Bytes → List (Option Reply) → Program
client text replies = record {
  stdin = text;
  replies = replies;
  screen = [];
  sent = [];
  server_addr = far;
  multicast_addr = far;
  current_group = [];
  username = [];
  password = [];
  message_port = pos 0;
  multicast_ip = 1;
  memberships = [];
  message_thread = false;
}

abbrev pub reply : Bytes → Reply
reply text = record { sender = far; bytes = text ++ (0 ∷ []) }

abbrev pub all : (ℕ → Bool) → Bytes → Bool
all test [] = true
all test (c ∷ w) = test c && all test w

pub all-All :
    (P : ℕ → Type 0) (test : ℕ → Bool)
    → ((c : ℕ) → test c ≡ true → P c)
    → (w : Bytes) → all test w ≡ true
    → All P w
all-All P test f [] e = tt
all-All P test f (c ∷ w) e = elim (Bool-cases (test c)) [
  | inl h ↦ (f c h, all-All P test f w (rw h at e))
  | inr h ↦ let bad = rw h at e in cc
]

pub word-bytes :
    (w : Bytes) → all (λ c. not (is_space c) && not (c == 0)) w ≡ true → All IsWordByte w
word-bytes =
    all-All IsWordByte (λ c. not (is_space c) && not (c == 0)) (λ c e. (ground arith, ground arith))

pub live-bytes : (w : Bytes) → all (λ c. not (c == 0)) w ≡ true → All (λ c. c ≢ 0) w
live-bytes = all-All (λ c. c ≢ 0) (λ c. not (c == 0)) (λ c e. ground arith)

pub line-bytes : (w : Bytes) → all (λ c. not (c == 10)) w ≡ true → All (λ c. c ≢ 10) w
line-bytes = all-All (λ c. c ≢ 10) (λ c. not (c == 10)) (λ c e. ground arith)

pub alice-IsWord : IsWord username_size (codes "alice")
alice-IsWord = record {
  nonempty = omega arith;
  fits = omega arith;
  bytes = word-bytes (codes "alice") refl;
}

pub secret-IsWord : IsWord password_size (codes "secret")
secret-IsWord = record {
  nonempty = omega arith;
  fits = omega arith;
  bytes = word-bytes (codes "secret") refl;
}

pub ip-IsWord : IsWord ip_size (codes "10.0.0.7")
ip-IsWord = record {
  nonempty = omega arith;
  fits = omega arith;
  bytes = word-bytes (codes "10.0.0.7") refl;
}

pub hello-IsLine : (size : ℕ) → 5 < size → IsLine size (codes "hello")
hello-IsLine size h = record {
  nonempty = omega arith;
  fits = h;
  bytes = line-bytes (codes "hello") refl;
}

-- a text that is shorter than the array and than a buffer
pub carried :
    (size : ℕ) (text : Bytes)
    → all (λ c. not (c == 0)) text ≡ true
    → length text < size
    → length text < buffer_size
    → Carries size text (reply text).bytes
carried size text e h k =
    let l = length-append text (0 ∷ []) in
    record {
      live = live-bytes text e;
      pad = [];
      whole = refl;
      fits = omega arith;
      short = omega arith;
    }
